-- ===== src/Qoffload/TaskStore/Lifecycle.antt =====
-- The life of a task in the store: what each operation does to the status of every id.
use mqss_integration_deploym.Base.{
  suc, ℕ, ◌≡◌, ◌≢◌, arith, ◌==◌, nat_eq, Option-cases, if◌then◌else◌, nat_beq_iff,
}
use mqss_integration_deploym.Dict.{
  insert_or_assign, insert_or_assign-IsDistinct, length-erase, length-insert_new, find-insert_self,
  find, find-insert_or_assign, find-erase,
}
use mqss_integration_deploym.Qoffload.TaskStore.Laws.{IsValid}
use mqss_integration_deploym.Qoffload.TaskStore.{
  pending_count, TaskStore, PendingTask, CompletedControlTask, waiting, completed, cancelled,
  not_found, add_direct_task, take_pending, status, store_completed_control_task,
  take_completed_control_task, status_of,
}

-- A task that is registered waits; no other status changes.
pub status-add_direct_task :
    (t : PendingTask) (s : TaskStore) (id : ℕ)
    → status id (add_direct_task t s) ≡ (if t.forwarded_task_id == id then waiting else status id s)
unfolding status add_direct_task
status-add_direct_task t s id =
    ground (arith, find-insert_or_assign t.forwarded_task_id id t s.pending)

-- A task that is taken from the pending ones has the status that the completed ones give it.
pub status-take_pending :
    (task_id : ℕ) (s : TaskStore) (id : ℕ)
    → status id (take_pending task_id s).1
      ≡ (if task_id == id then status_of (find id s.completed_control_tasks) else status id s)
unfolding status take_pending
status-take_pending task_id s id =
    ground (arith, find-erase task_id id s.pending, Option-cases (find task_id s.pending))

-- A result that is stored shows unless its id waits again.
pub status-store_completed :
    (t : CompletedControlTask) (s : TaskStore) (id : ℕ)
    → status t.task_id s ≢ waiting
    → status id (store_completed_control_task t s) ≡ (
        if t.task_id == id
        then (if t.execution_status then completed else cancelled)
        else status id s)
unfolding status store_completed_control_task
status-store_completed t s id h = ground (
  arith,
  find-insert_or_assign t.task_id id t s.completed_control_tasks,
  nat_beq_iff t.task_id id,
)

-- A result that is taken is gone.
status-take_completed :
    (task_id : ℕ) (s : TaskStore) (id : ℕ)
    → status task_id s ≢ waiting
    → status id (take_completed_control_task task_id s).1
      ≡ (if task_id == id then not_found else status id s)
unfolding status take_completed_control_task
status-take_completed task_id s id h = ground (
  arith,
  find-erase task_id id s.completed_control_tasks,
  nat_beq_iff task_id id,
  Option-cases (find task_id s.completed_control_tasks),
)

-- The number of pending tasks, which is what a client is told, counts tasks: registering an id that
-- is not pending adds one, and taking a pending task removes one.
pending_count_steps :
    (t : PendingTask) (s : TaskStore)
    → IsValid s
    → status t.forwarded_task_id s ≢ waiting
    → (pending_count (add_direct_task t s) ≡ suc (pending_count s))
      × (pending_count (take_pending t.forwarded_task_id (add_direct_task t s)).1 ≡ pending_count s)
unfolding pending_count add_direct_task take_pending status
pending_count_steps t s v h =
    let added = length-insert_new t.forwarded_task_id t s.pending (ground (arith, h)) in
    let there = find-insert_self t.forwarded_task_id t s.pending in
    let taken =
      length-erase t.forwarded_task_id (insert_or_assign t.forwarded_task_id t s.pending) t
        (insert_or_assign-IsDistinct t.forwarded_task_id t s.pending v.pending_distinct) there in
    (added, ground (arith, added, there, taken))
