-- ===== src/Qoffload/TaskStore.antt =====
-- examples/qoffload_service: TaskStore.hpp and TaskStore.cpp. Each function is one locked section.
pub mod Laws
pub mod Lifecycle
pub mod Bare
use mqss_integration_deploym.Base.{
  ℕ, String, Bool, List, [], Option, none, some, nat_eq, if◌then◌else◌, length,
}
use mqss_integration_deploym.Dict.{find, insert_or_assign, erase, contains}
use mqss_integration_deploym.Qoffload.Proto.{Counts}

pub data PendingTaskKind : Type 0 where
  direct_task control_task : PendingTaskKind

pub data TaskStatus : Type 0 where
  waiting completed cancelled not_found : TaskStatus

pub record PendingTask : Type 0 where
  pub kind : PendingTaskKind
  pub forwarded_task_id : ℕ
  pub original_task_id : ℕ
  pub original_result_destination : String

pub record CompletedControlTask : Type 0 where
  pub task_id : ℕ
  pub execution_status : Bool
  pub result_counts : List Counts
  pub cancel_reason : String
  pub timestamp_scheduled : String
  pub timestamp_submitted : String
  pub timestamp_completed : String

pub record TaskStore : Type 0 where
  pub pending : List (ℕ × PendingTask)
  pub completed_control_tasks : List (ℕ × CompletedControlTask)

abbrev pub new_store : TaskStore
new_store = record { pending = []; completed_control_tasks = [] }

unfoldable pub add_direct_task : PendingTask → TaskStore → TaskStore
add_direct_task task s = record s {
  pending = insert_or_assign task.forwarded_task_id task s.pending;
}

unfoldable pub add_control_task : ℕ → TaskStore → TaskStore
unfolding add_direct_task
add_control_task task_id s =
    add_direct_task
      (record {
        kind = control_task;
        forwarded_task_id = task_id;
        original_task_id = task_id;
        original_result_destination = "";
      })
      s

unfoldable pub take_pending : ℕ → TaskStore → Option PendingTask × TaskStore
take_pending task_id s = elim (find task_id s.pending) [
  | none ↦ (none, s)
  | some task ↦ (some task, record s { pending = erase task_id s.pending })
]

abbrev pub status_of : Option CompletedControlTask → TaskStatus
status_of none = not_found
status_of (some task) = if task.execution_status then completed else cancelled

unfoldable pub status : ℕ → TaskStore → TaskStatus
unfolding contains
status task_id s =
    if contains task_id s.pending
    then waiting
    else status_of (find task_id s.completed_control_tasks)

unfoldable pub pending_count : TaskStore → ℕ
pending_count s = length s.pending

unfoldable pub store_completed_control_task : CompletedControlTask → TaskStore → TaskStore
store_completed_control_task result s = record s {
  completed_control_tasks = insert_or_assign result.task_id result s.completed_control_tasks;
}

unfoldable pub take_completed_control_task : ℕ → TaskStore → Option CompletedControlTask × TaskStore
take_completed_control_task task_id s = elim (find task_id s.completed_control_tasks) [
  | none ↦ (none, s)
  | some result ↦
      (some result, record s { completed_control_tasks = erase task_id s.completed_control_tasks })
]
