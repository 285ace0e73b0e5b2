-- ===== src/Qoffload/Forward.antt =====
-- examples/qoffload_service: Forward.hpp and Forward.cpp. The task store and the counter are passed
-- through; a task id is a `std::uint64_t` inside the service and an `int32` in a message.
pub mod CountTables
pub mod Ids
pub mod Correlation
pub mod Lost
use mqss_integration_deploym.Base.{
  ℕ, ◌+◌, ◌*◌, String, Bool, true, false, List, [], ◌∷◌, ◌++◌, map, Option, none, some, string_eq,
  if◌then◌else◌,
}
use mqss_integration_deploym.Dict.{contains}
use mqss_integration_deploym.Words.{to_int32, int32_to_uint64, wrap64}
use mqss_integration_deploym.Qoffload.Proto.{QuantumTask, QuantumResult, Counts}
use mqss_integration_deploym.Qoffload.Config.{Config}
use mqss_integration_deploym.Qoffload.TaskStore.{
  TaskStore, PendingTask, PendingTaskKind, direct_task, control_task, CompletedControlTask,
  add_direct_task, add_control_task, take_pending, store_completed_control_task,
}

pub data ResultProcessingKind : Type 0 where
  unknown_task direct_result control_result_stored : ResultProcessingKind

pub record ResultProcessingOutcome : Type 0 where
  pub kind : ResultProcessingKind
  pub result : Option QuantumResult
  pub result_destination : String

pub record Forward : Type 0 where
  pub instance_uid : ℕ
  pub next_task_index : ℕ

abbrev pub new_forward : ℕ → Forward
new_forward instance_uid = record { instance_uid = instance_uid; next_task_index = 0 }

unfoldable pub next_task_id : Forward → ℕ × Forward
next_task_id f =
    let index = f.next_task_index in
    (
      wrap64 (wrap64 (index * 10000) + f.instance_uid),
      record f { next_task_index = wrap64 (index + 1) },
    )

-- `if (config.policy.hpc_node) task.set_priority(1)`.
abbrev pub with_priority : Config → QuantumTask → QuantumTask
with_priority config task = if config.policy.hpc_node then record task { priority = 1 } else task

abbrev pub addressed : ℕ → Config → QuantumTask → QuantumTask
addressed task_id config task =
    with_priority config
      (record task { task_id = to_int32 task_id; result_destination = config.queues.result })

unfoldable pub forward_direct_task :
    QuantumTask → TaskStore → Config → Forward → QuantumTask × TaskStore × Forward
unfolding next_task_id add_direct_task
forward_direct_task request tasks config f =
    let (forwarded_task_id, f') = next_task_id f in
    (
      addressed forwarded_task_id config request,
      add_direct_task
          (record {
            kind = direct_task;
            forwarded_task_id = forwarded_task_id;
            original_task_id = int32_to_uint64 request.task_id;
            original_result_destination = request.result_destination;
          })
          tasks,
      f',
    )

unfoldable pub create_control_task :
    QuantumTask → TaskStore → Config → Forward → QuantumTask × TaskStore × Forward
unfolding next_task_id add_control_task
create_control_task task tasks config f =
    let (task_id, f') = next_task_id f in
    (addressed task_id config task, add_control_task task_id tasks, f')

-- `counts.emplace(entry.first, entry.second)`: a key that is there already is kept.
unfoldable pub emplace_counts : Counts → Counts → Counts
unfolding contains
emplace_counts counts [] = counts
emplace_counts counts ((state, count) ∷ entries) =
    emplace_counts (if contains state counts then counts else counts ++ (state, count) ∷ []) entries

unfoldable pub completed_from : PendingTask → QuantumResult → CompletedControlTask
unfolding emplace_counts
completed_from pending result = record {
  task_id = pending.original_task_id;
  execution_status = result.execution_status;
  result_counts = map (emplace_counts []) result.results;
  cancel_reason = "";
  timestamp_scheduled = "";
  timestamp_submitted = "";
  timestamp_completed = "";
}

-- What becomes of the result of a task that was pending.
unfoldable pub resolve :
    PendingTaskKind → PendingTask → QuantumResult → TaskStore → ResultProcessingOutcome × TaskStore
unfolding completed_from store_completed_control_task
resolve control_task pending result tasks = (
  record { kind = control_result_stored; result = none; result_destination = "" },
  store_completed_control_task (completed_from pending result) tasks,
)
resolve direct_task pending result tasks = (
  record {
    kind = direct_result;
    result = some (record result {
      task_id = to_int32 pending.original_task_id;
      destination = pending.original_result_destination;
    });
    result_destination = pending.original_result_destination;
  },
  tasks,
)

abbrev pub resolve_taken :
    QuantumResult → Option PendingTask × TaskStore → ResultProcessingOutcome × TaskStore
resolve_taken result (none, tasks) =
    (record { kind = unknown_task; result = none; result_destination = "" }, tasks)
resolve_taken result (some pending, tasks) = resolve pending.kind pending result tasks

unfoldable pub process_result : QuantumResult → TaskStore → ResultProcessingOutcome × TaskStore
unfolding take_pending resolve
process_result result tasks =
    resolve_taken result (take_pending (int32_to_uint64 result.task_id) tasks)
