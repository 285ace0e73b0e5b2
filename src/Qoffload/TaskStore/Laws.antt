-- ===== src/Qoffload/TaskStore/Laws.antt =====
-- The two maps of the task store stay well formed, and what each operation does to the status of
-- every task.
use mqss_integration_deploym.Base.{
  List, [], ◌∷◌, ℕ, ◌≡◌, some, arith, nat_eq, Option-cases, inl, inr,
}
use mqss_integration_deploym.Dict.{
  find, IsDistinct, find-insert_or_assign, find-erase, insert_or_assign-IsDistinct,
  erase-IsDistinct,
}
use mqss_integration_deploym.Qoffload.TaskStore.{
  TaskStore, PendingTask, CompletedControlTask, add_direct_task, add_control_task, take_pending,
  store_completed_control_task, take_completed_control_task, new_store,
}

-- Each map has one entry for each key, and an entry stands under its own task id.
pub record IsValid (s : TaskStore) : Type 0 where
  pub pending_distinct : IsDistinct s.pending
  pub completed_distinct : IsDistinct s.completed_control_tasks
  pub pending_keyed :
      (k : ℕ) (t : PendingTask) → find k s.pending ≡ some t → t.forwarded_task_id ≡ k
  pub completed_keyed :
      (k : ℕ) (t : CompletedControlTask) → find k s.completed_control_tasks ≡ some t → t.task_id ≡ k

pub new_store-IsValid : IsValid new_store
unfolding find
new_store-IsValid = record {
  pending_distinct = tt;
  completed_distinct = tt;
  pending_keyed = λ k t h. cc;
  completed_keyed = λ k t h. cc;
}

pub add_direct_task-IsValid :
    (t : PendingTask) (s : TaskStore) → IsValid s → IsValid (add_direct_task t s)
unfolding add_direct_task
add_direct_task-IsValid t s v = record {
  pending_distinct = insert_or_assign-IsDistinct t.forwarded_task_id t s.pending v.pending_distinct;
  completed_distinct = v.completed_distinct;
  pending_keyed = λ k u h.
      ground (arith, find-insert_or_assign t.forwarded_task_id k t s.pending, v.pending_keyed k u);
  completed_keyed = v.completed_keyed;
}

pub add_control_task-IsValid :
    (task_id : ℕ) (s : TaskStore) → IsValid s → IsValid (add_control_task task_id s)
unfolding add_control_task
add_control_task-IsValid task_id s v = add_direct_task-IsValid _ s v

pub take_pending-IsValid :
    (task_id : ℕ) (s : TaskStore) → IsValid s → IsValid (take_pending task_id s).1
unfolding take_pending
take_pending-IsValid task_id s v = elim (Option-cases (find task_id s.pending)) [
  | inl e ↦ simp (e, take_pending) v
  | inr (t, e) ↦
      simp (e, take_pending)
        (record {
          pending_distinct = erase-IsDistinct task_id s.pending v.pending_distinct;
          completed_distinct = v.completed_distinct;
          pending_keyed =
              λ k u h. ground (arith, find-erase task_id k s.pending, v.pending_keyed k u);
          completed_keyed = v.completed_keyed;
        })
]

pub store_completed-IsValid :
    (t : CompletedControlTask) (s : TaskStore)
    → IsValid s
    → IsValid (store_completed_control_task t s)
unfolding store_completed_control_task
store_completed-IsValid t s v = record {
  pending_distinct = v.pending_distinct;
  completed_distinct =
      insert_or_assign-IsDistinct t.task_id t s.completed_control_tasks v.completed_distinct;
  pending_keyed = v.pending_keyed;
  completed_keyed = λ k u h.
      ground (
        arith,
        find-insert_or_assign t.task_id k t s.completed_control_tasks,
        v.completed_keyed k u,
      );
}

pub take_completed-IsValid :
    (task_id : ℕ) (s : TaskStore) → IsValid s → IsValid (take_completed_control_task task_id s).1
unfolding take_completed_control_task
take_completed-IsValid task_id s v = elim (Option-cases (find task_id s.completed_control_tasks)) [
  | inl e ↦ simp (e, take_completed_control_task) v
  | inr (t, e) ↦
      simp (e, take_completed_control_task)
        (record {
          pending_distinct = v.pending_distinct;
          completed_distinct =
              erase-IsDistinct task_id s.completed_control_tasks v.completed_distinct;
          pending_keyed = v.pending_keyed;
          completed_keyed = λ k u h.
              ground (arith, find-erase task_id k s.completed_control_tasks, v.completed_keyed k u);
        })
]

-- The operations of the store, in any order.
pub data Operation : Type 0 where
  add_direct : PendingTask → Operation
  add_control take_one take_result : ℕ → Operation
  store_result : CompletedControlTask → Operation

unfoldable pub run : List Operation → TaskStore → TaskStore
run [] s = s
run (add_direct t ∷ os) s = run os (add_direct_task t s)
run (add_control id ∷ os) s = run os (add_control_task id s)
run (take_one id ∷ os) s = run os (take_pending id s).1
run (take_result id ∷ os) s = run os (take_completed_control_task id s).1
run (store_result t ∷ os) s = run os (store_completed_control_task t s)

run-IsValid : (os : List Operation) (s : TaskStore) → IsValid s → IsValid (run os s)
unfolding run
run-IsValid [] s v = v
run-IsValid (add_direct t ∷ os) s v = run-IsValid os _ (add_direct_task-IsValid t s v)
run-IsValid (add_control id ∷ os) s v = run-IsValid os _ (add_control_task-IsValid id s v)
run-IsValid (take_one id ∷ os) s v = run-IsValid os _ (take_pending-IsValid id s v)
run-IsValid (take_result id ∷ os) s v = run-IsValid os _ (take_completed-IsValid id s v)
run-IsValid (store_result t ∷ os) s v = run-IsValid os _ (store_completed-IsValid t s v)

-- After any sequence of operations on a new store each map has one entry for each task id, and every
-- entry stands under the id that it carries.
run-new_store-IsValid : (os : List Operation) → IsValid (run os new_store)
run-new_store-IsValid os = run-IsValid os new_store new_store-IsValid
