-- ===== src/Qoffload/Threads/StoreCounts.antt =====
-- How often a task id is in the task store, after each of its operations.
use mqss_integration_deploym.Dict.{find-erase}
use mqss_integration_deploym.Base.{nat_beq_iff}
use mqss_integration_deploym.Qoffload.TaskStore.{CompletedControlTask, store_completed_control_task}
use mqss_integration_deploym.Base.{
  ℕ, ◌≡◌, Option-cases, none, some, arith, nat_eq, true, false, ◌==◌, nat_beq_iff,
}
use mqss_integration_deploym.Dict.{find, find-insert_or_assign}
use mqss_integration_deploym.Qoffload.TaskStore.{
  TaskStore, PendingTask, add_direct_task, take_pending, store_completed_control_task,
  take_completed_control_task,
}
use mqss_integration_deploym.Qoffload.Threads.Places.{one_if}
use mqss_integration_deploym.Base.{is_some}

module _ (id : ℕ) where
  -- A task that is added under its own id, and under another.
  pub add-here :
      (t : PendingTask) (s : TaskStore)
      → (t.forwarded_task_id == id) ≡ true
      → one_if (is_some (find id (add_direct_task t s).pending)) ≡ 1
  unfolding add_direct_task
  add-here t s e = ground (arith, find-insert_or_assign t.forwarded_task_id id t s.pending, e)

  pub add-elsewhere :
      (t : PendingTask) (s : TaskStore)
      → (t.forwarded_task_id == id) ≡ false
      → one_if (is_some (find id (add_direct_task t s).pending))
        ≡ one_if (is_some (find id s.pending))
  unfolding add_direct_task
  add-elsewhere t s e = ground (arith, find-insert_or_assign t.forwarded_task_id id t s.pending, e)

  pub store-here :
      (t : CompletedControlTask) (s : TaskStore)
      → (t.task_id == id) ≡ true
      → one_if (is_some (find id (store_completed_control_task t s).completed_control_tasks)) ≡ 1
  unfolding store_completed_control_task
  store-here t s e =
      ground (arith, find-insert_or_assign t.task_id id t s.completed_control_tasks, e)

  pub store-elsewhere :
      (t : CompletedControlTask) (s : TaskStore)
      → (t.task_id == id) ≡ false
      → one_if (is_some (find id (store_completed_control_task t s).completed_control_tasks))
        ≡ one_if (is_some (find id s.completed_control_tasks))
  unfolding store_completed_control_task
  store-elsewhere t s e =
      ground (arith, find-insert_or_assign t.task_id id t s.completed_control_tasks, e)

  pub fetch_none :
      (k : ℕ) (s : TaskStore)
      → find k s.completed_control_tasks ≡ none
      → (take_completed_control_task k s).1 ≡ s
  unfolding take_completed_control_task
  fetch_none k s h = ground (arith, h)

  pub fetch-pending :
      (k : ℕ) (s : TaskStore) → (take_completed_control_task k s).1.pending ≡ s.pending
  unfolding take_completed_control_task
  fetch-pending k s = ground (arith, Option-cases (find k s.completed_control_tasks))

  pub fetch_here :
      (k : ℕ) (s : TaskStore)
      → (k == id) ≡ true
      → one_if (is_some (find id (take_completed_control_task k s).1.completed_control_tasks)) ≡ 0
  unfolding take_completed_control_task
  fetch_here k s e = ground (
    arith,
    Option-cases (find k s.completed_control_tasks),
    find-erase k id s.completed_control_tasks,
    e,
    nat_beq_iff k id,
  )

  pub fetch_found :
      (k : ℕ) (s : TaskStore) (c : CompletedControlTask)
      → find k s.completed_control_tasks ≡ some c
      → (k == id) ≡ true
      → one_if (is_some (find id s.completed_control_tasks)) ≡ 1
  fetch_found k s c there e = ground (arith, there, nat_beq_iff k id, e)

  pub fetch_elsewhere :
      (k : ℕ) (s : TaskStore)
      → (k == id) ≡ false
      → one_if (is_some (find id (take_completed_control_task k s).1.completed_control_tasks))
        ≡ one_if (is_some (find id s.completed_control_tasks))
  unfolding take_completed_control_task
  fetch_elsewhere k s e = ground (
    arith,
    Option-cases (find k s.completed_control_tasks),
    find-erase k id s.completed_control_tasks,
    e,
  )

  pub take-completed :
      (k : ℕ) (s : TaskStore)
      → (take_pending k s).1.completed_control_tasks ≡ s.completed_control_tasks
  unfolding take_pending
  take-completed k s = ground (arith, Option-cases (find k s.pending))

  pub take_here :
      (k : ℕ) (s : TaskStore)
      → (k == id) ≡ true
      → one_if (is_some (find id (take_pending k s).1.pending)) ≡ 0
  unfolding take_pending
  take_here k s e =
      ground
        (arith, Option-cases (find k s.pending), find-erase k id s.pending, e, nat_beq_iff k id)

  pub take_found :
      (k : ℕ) (s : TaskStore) (p : PendingTask)
      → find k s.pending ≡ some p
      → (k == id) ≡ true
      → one_if (is_some (find id s.pending)) ≡ 1
  take_found k s p there e = ground (arith, there, nat_beq_iff k id, e)

  pub take_elsewhere :
      (k : ℕ) (s : TaskStore)
      → (k == id) ≡ false
      → one_if (is_some (find id (take_pending k s).1.pending))
        ≡ one_if (is_some (find id s.pending))
  unfolding take_pending
  take_elsewhere k s e =
      ground (arith, Option-cases (find k s.pending), find-erase k id s.pending, e)
