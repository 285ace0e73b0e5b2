-- ===== src/Qoffload/Threads/Places.antt =====
-- examples/qoffload_service: where each task id of QOffload.cpp is while the workers run as threads.
use mqss_integration_deploym.Base.{
  ℕ, ◌+◌, ◌-◌, ◌/◌, ◌^◌, ◌≤◌, ◌<◌, ◌≡◌, Option-cases, none, some, arith, nat_eq, Bool, true, false,
  if◌then◌else◌, ◌==◌, ltb, nat_beq_iff, is_some,
}
use mqss_integration_deploym.Dict.{find, find-insert_or_assign, find-erase}
use mqss_integration_deploym.Qoffload.TaskStore.{
  TaskStore, PendingTask, CompletedControlTask, add_direct_task, take_pending,
  store_completed_control_task, take_completed_control_task,
}
use mqss_integration_deploym.Qoffload.Forward.{Forward, next_task_id}
use mqss_integration_deploym.Qoffload.Forward.Ids.{plain_id}
use mqss_integration_deploym.Qoffload.Threads.State.{
  Threads, TaskWorker, ControlWorker, ResultWorker, registering, creating, storing,
}

abbrev pub one_if : Bool → ℕ
one_if true = 1
one_if false = 0

-- The places in which a task id can be: with a worker that has drawn it, among the pending tasks, with
-- the worker that stores its result, and among the completed tasks.
abbrev pub in_task_worker : ℕ → TaskWorker → ℕ
in_task_worker id (registering request k) = one_if (k == id)
in_task_worker id _ = 0

abbrev pub in_control_worker : ℕ → ControlWorker → ℕ
in_control_worker id (creating request task k) = one_if (k == id)
in_control_worker id _ = 0

abbrev pub in_result_worker : ℕ → ResultWorker → ℕ
in_result_worker id (storing completed) = one_if (completed.task_id == id)
in_result_worker id _ = 0

abbrev pub in_store : ℕ → TaskStore → ℕ
in_store id tasks =
    one_if (is_some (find id tasks.pending))
    + one_if (is_some (find id tasks.completed_control_tasks))

abbrev pub places : ℕ → Threads → ℕ
places id s =
    in_task_worker id s.task_worker
    + in_control_worker id s.control_worker
    + in_result_worker id s.result_worker
    + in_store id s.tasks

-- Whether the forwarder has given the id out.
abbrev pub given : Forward → ℕ → ℕ
given f id =
    let index = (id - f.instance_uid) / 10000 in
    one_if (if plain_id f.instance_uid index == id then ltb index f.next_task_index else false)

pub given-next :
    (f : Forward) (id : ℕ)
    → f.instance_uid < 2 ^ 31
    → f.next_task_index < 2 ^ 33
    → given (next_task_id f).1 id ≡ given f id + one_if ((next_task_id f).0 == id)
unfolding next_task_id
given-next f id u b = ground arith

pub in_store-add :
    (t : PendingTask) (s : TaskStore) (id : ℕ)
    → in_store id (add_direct_task t s) ≤ in_store id s + one_if (t.forwarded_task_id == id)
unfolding add_direct_task
in_store-add t s id = ground (arith, find-insert_or_assign t.forwarded_task_id id t s.pending)

pub in_store-store :
    (t : CompletedControlTask) (s : TaskStore) (id : ℕ)
    → in_store id (store_completed_control_task t s) ≤ in_store id s + one_if (t.task_id == id)
unfolding store_completed_control_task
in_store-store t s id =
    ground (arith, find-insert_or_assign t.task_id id t s.completed_control_tasks)

pub in_store-fetch :
    (k : ℕ) (s : TaskStore) (id : ℕ)
    → in_store id (take_completed_control_task k s).1 ≤ in_store id s
unfolding take_completed_control_task
in_store-fetch k s id = ground (
  arith,
  Option-cases (find k s.completed_control_tasks),
  find-erase k id s.completed_control_tasks,
)

-- A pending task that is taken leaves the store.
pub in_store-take :
    (k : ℕ) (s : TaskStore) (id : ℕ) (p : PendingTask)
    → find k s.pending ≡ some p
    → in_store id (take_pending k s).1 + one_if (k == id) ≡ in_store id s
unfolding take_pending
in_store-take k s id p there = ground (arith, there, find-erase k id s.pending, nat_beq_iff k id)

pub take_none : (k : ℕ) (s : TaskStore) → find k s.pending ≡ none → take_pending k s ≡ (none, s)
unfolding take_pending
take_none k s gone = ground (arith, gone)

pub take_some :
    (k : ℕ) (s : TaskStore) (p : PendingTask)
    → find k s.pending ≡ some p
    → take_pending k s ≡ (some p, (take_pending k s).1)
unfolding take_pending
take_some k s p there = ground (arith, there)

one_if-le : (b : Bool) → one_if b ≤ 1
one_if-le true = omega arith
one_if-le false = omega arith

pub given-le : (f : Forward) (id : ℕ) → given f id ≤ 1
given-le f id = one_if-le _
