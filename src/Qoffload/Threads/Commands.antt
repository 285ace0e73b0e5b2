-- ===== src/Qoffload/Threads/Commands.antt =====
-- examples/qoffload_service: the turns of the control-interface worker of QOffload.cpp, with the commands
-- of Control.cpp a section at a time.
use mqss_integration_deploym.Base.{Bool, true, false, List, [], if◌then◌else◌}
use mqss_integration_deploym.Words.{int32_to_uint64}
use mqss_integration_deploym.Mqss.Status.{Status, Result, value, unexpected}
use mqss_integration_deploym.Qoffload.Proto.{ApiRequest, blank_task}
use mqss_integration_deploym.Qoffload.TaskStore.{
  TaskStore, add_control_task, status, take_completed_control_task,
}
use mqss_integration_deploym.Qoffload.Forward.{next_task_id, addressed}
use mqss_integration_deploym.Qoffload.Protocol.{
  ControlCommand, ControlResult, create_quantum_task, get_task_status, get_task_result,
  get_cancel_reason, list_resources, get_resource_info, query_pending_tasks, invalid, task_created,
  control_error,
}
use mqss_integration_deploym.Qoffload.Control.{
  protocol_for, apply_create, is_waiting, taken_result, taken_reason, handle_get_task_status,
  handle_list_resources, handle_get_resource_info, handle_query_pending_tasks, handle_invalid,
}
use mqss_integration_deploym.Qoffload.Service.{
  Effect, send_task, receive_failure, sent, response_effects,
}
use mqss_integration_deploym.Qoffload.Threads.State.{
  Threads, ControlWorker, awaiting_request, executing, creating, fetching_result, fetching_reason,
  forwarding, responding, control_stopped,
}

abbrev pub request_received : Result ApiRequest → Threads → List Effect × Threads
request_received (unexpected error) s =
    (receive_failure "Failed to receive control APIRequest: {}" error, s)
request_received (value request) s = ([], record s { control_worker = executing request })

abbrev pub answering : ApiRequest → ControlResult → Threads → Threads
answering request result s = record s { control_worker = responding request result }

-- The first section of the commands that fetch a task.
abbrev pub unless_waiting : Bool → ApiRequest → ControlWorker → Threads → Threads
unless_waiting true request next s = answering request (control_error "JOB IS WAITING") s
unless_waiting false request next s = record s { control_worker = next }

-- Commands that make one access at most are over; the others have a second one before them.
unfoldable pub command_step : ControlCommand → ApiRequest → Threads → Threads
unfolding next_task_id status apply_create handle_get_task_status handle_list_resources
    handle_get_resource_info handle_query_pending_tasks
command_step (create_quantum_task command) request s =
    let (task_id, f) = next_task_id s.forwarder in
    record s {
      forwarder = f;
      control_worker = creating request (apply_create command blank_task) task_id;
    }
command_step (get_task_status id) request s =
    answering request (handle_get_task_status id s.tasks).0 s
command_step (get_task_result id) request s =
    unless_waiting (is_waiting (status id s.tasks)) request (fetching_result request id) s
command_step (get_cancel_reason id) request s =
    unless_waiting (is_waiting (status id s.tasks)) request (fetching_reason request id) s
command_step list_resources request s = answering request (handle_list_resources s.tasks).0 s
command_step (get_resource_info name) request s =
    answering request (handle_get_resource_info name s.tasks).0 s
command_step (query_pending_tasks name) request s =
    answering request (handle_query_pending_tasks name s.tasks).0 s
command_step (invalid message) request s = answering request (handle_invalid message s.tasks).0 s

-- After the second section of `handleCommand`: the store without the entry, and the answer.
abbrev pub fetched : ApiRequest → ControlResult × TaskStore → Threads → Threads
fetched request (result, tasks) s = record s {
  tasks = tasks;
  control_worker = responding request result;
}

-- A turn of the control-interface worker.
unfoldable pub control_step :
    ControlWorker → Result ApiRequest → Status → Status → Threads → List Effect × Threads
unfolding protocol_for command_step add_control_task take_completed_control_task
control_step awaiting_request received task_st response_st s =
    if s.stop_tokens.control
    then ([], record s { control_worker = control_stopped })
    else request_received received s
control_step (executing request) received task_st response_st s =
    ([], command_step ((protocol_for request.typed_request).decode request).command request s)
control_step (creating request task task_id) received task_st response_st s = (
  [],
  record s {
    tasks = add_control_task task_id s.tasks;
    control_worker = forwarding request (addressed task_id s.config task);
  },
)
control_step (fetching_result request id) received task_st response_st s =
    ([], fetched request (taken_result (take_completed_control_task id s.tasks)) s)
control_step (fetching_reason request id) received task_st response_st s =
    ([], fetched request (taken_reason (take_completed_control_task id s.tasks)) s)
control_step (forwarding request task) received task_st response_st s = (
  sent (send_task s.config.queues.qrm_task task) "Failed to forward control QuantumTask: {}"
      task_st,
  answering request (task_created (int32_to_uint64 task.task_id)) s,
)
control_step (responding request result) received task_st response_st s =
    let protocol = protocol_for request.typed_request in
    (
      response_effects (protocol.encode result (protocol.decode request).response_queue)
          response_st,
      record s { control_worker = awaiting_request },
    )
control_step control_stopped received task_st response_st s = ([], s)
