-- ===== src/Qoffload/Threads/Workers.antt =====
-- examples/qoffload_service: the turns of the task-interface worker and of the QRM-result worker of
-- QOffload.cpp, with `forwardDirectTask` and `processResult` of Forward.cpp a section at a time.
use mqss_integration_deploym.Base.{List, [], Option, none, some, if◌then◌else◌}
use mqss_integration_deploym.Words.{to_int32, int32_to_uint64}
use mqss_integration_deploym.Mqss.Status.{Status, Result, value, unexpected}
use mqss_integration_deploym.Qoffload.Proto.{QuantumTask, QuantumResult}
use mqss_integration_deploym.Qoffload.TaskStore.{
  TaskStore, PendingTask, PendingTaskKind, direct_task, control_task, add_direct_task, take_pending,
  store_completed_control_task,
}
use mqss_integration_deploym.Qoffload.Forward.{next_task_id, addressed, completed_from}
use mqss_integration_deploym.Qoffload.Service.{
  Effect, send_task, send_result, receive_failure, sent,
}
use mqss_integration_deploym.Qoffload.Threads.State.{
  Threads, TaskWorker, ResultWorker, awaiting_task, numbering, registering, sending, task_stopped,
  awaiting_result, taking, storing, returning, result_stopped,
}

abbrev pub task_received : Result QuantumTask → Threads → List Effect × Threads
task_received (unexpected error) s = (receive_failure "Failed to receive QuantumTask: {}" error, s)
task_received (value request) s = ([], record s { task_worker = numbering request })

-- A turn of the task-interface worker.
unfoldable pub task_step :
    TaskWorker → Result QuantumTask → Status → Threads → List Effect × Threads
unfolding next_task_id add_direct_task
task_step awaiting_task received st s =
    if s.stop_tokens.task
    then ([], record s { task_worker = task_stopped })
    else task_received received s
task_step (numbering request) received st s =
    let (task_id, f) = next_task_id s.forwarder in
    ([], record s { forwarder = f; task_worker = registering request task_id })
task_step (registering request task_id) received st s = (
  [],
  record s {
    tasks =
        add_direct_task
          (record {
            kind = direct_task;
            forwarded_task_id = task_id;
            original_task_id = int32_to_uint64 request.task_id;
            original_result_destination = request.result_destination;
          })
          s.tasks;
    task_worker = sending (addressed task_id s.config request);
  },
)
task_step (sending qrm_task) received st s = (
  sent (send_task s.config.queues.qrm_task qrm_task) "Failed to forward QuantumTask: {}" st,
  record s { task_worker = awaiting_task },
)
task_step task_stopped received st s = ([], s)

abbrev pub result_received : Result QuantumResult → Threads → List Effect × Threads
result_received (unexpected error) s =
    (receive_failure "Failed to receive QuantumResult: {}" error, s)
result_received (value result) s = ([], record s { result_worker = taking result })

abbrev pub taken_kind : PendingTaskKind → PendingTask → QuantumResult → ResultWorker
taken_kind control_task pending result = storing (completed_from pending result)
taken_kind direct_task pending result =
    returning
      (record result {
        task_id = to_int32 pending.original_task_id;
        destination = pending.original_result_destination;
      })
      pending.original_result_destination

abbrev pub taken : QuantumResult → Option PendingTask × TaskStore → Threads → Threads
taken result (none, tasks) s = record s { tasks = tasks; result_worker = awaiting_result }
taken result (some pending, tasks) s = record s {
  tasks = tasks;
  result_worker = taken_kind pending.kind pending result;
}

-- A turn of the QRM-result worker.
unfoldable pub result_step :
    ResultWorker → Result QuantumResult → Status → Threads → List Effect × Threads
unfolding take_pending completed_from store_completed_control_task
result_step awaiting_result received st s =
    if s.stop_tokens.result
    then ([], record s { result_worker = result_stopped })
    else result_received received s
result_step (taking result) received st s =
    ([], taken result (take_pending (int32_to_uint64 result.task_id) s.tasks) s)
result_step (storing completed) received st s = (
  [],
  record s {
    tasks = store_completed_control_task completed s.tasks;
    result_worker = awaiting_result;
  },
)
result_step (returning result destination) received st s = (
  sent (send_result destination result) "Failed to send mapped QuantumResult: {}" st,
  record s { result_worker = awaiting_result },
)
result_step result_stopped received st s = ([], s)
