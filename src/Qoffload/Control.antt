-- ===== src/Qoffload/Control.antt =====
-- examples/qoffload_service: Control.hpp and Control.cpp, with `controlProtocolFor` of
-- ControlProtocol.hpp. The task store and the forwarder are passed through.
pub mod Life
pub mod Agreement
mod Tests
use mqss_integration_deploym.Base.{
  ℕ, String, Bool, true, false, List, [], ◌++◌, Option, none, some, if◌then◌else◌,
}
use mqss_integration_deploym.Words.{int32_to_uint64}
use mqss_integration_deploym.Qoffload.Proto.{
  QuantumTask, blank_task, ApiRequest, ApiResponse, TypedRequest,
}
use mqss_integration_deploym.Qoffload.Config.{Config}
use mqss_integration_deploym.Qoffload.TaskStore.{
  TaskStore, TaskStatus, waiting, completed, cancelled, not_found, CompletedControlTask, status,
  take_completed_control_task, pending_count,
}
use mqss_integration_deploym.Qoffload.ResourceRegistry
use mqss_integration_deploym.Qoffload.ResourceRegistry.{ResourceInfo, resources}
use mqss_integration_deploym.Qoffload.Forward.{Forward, create_control_task}
use mqss_integration_deploym.Qoffload.Protocol.{
  ControlCommand, ControlResult, ControlProtocol, CreateQuantumTaskCommand, create_quantum_task,
  get_task_status, get_task_result, get_cancel_reason, list_resources, get_resource_info,
  query_pending_tasks, invalid, task_created, task_status_result, task_result_result,
  cancel_reason_result, resource_list_result, resource_info_result, pending_tasks_result,
  control_error,
}
use mqss_integration_deploym.Qoffload.Typed.{typed_protocol}
use mqss_integration_deploym.Qoffload.Rest.Encode.{rest_protocol}

abbrev pub is_waiting : TaskStatus → Bool
is_waiting waiting = true
is_waiting _ = false

abbrev pub taken_result : Option CompletedControlTask × TaskStore → ControlResult × TaskStore
taken_result (none, tasks) = (control_error "JOB NOT FOUND", tasks)
taken_result (some task, tasks) = (task_result_result task, tasks)

abbrev pub taken_reason : Option CompletedControlTask × TaskStore → ControlResult × TaskStore
taken_reason (none, tasks) = (control_error "JOB NOT FOUND", tasks)
taken_reason (some task, tasks) = (cancel_reason_result task.cancel_reason, tasks)

abbrev pub resource_result : Option ResourceInfo → ControlResult
resource_result none = control_error "RESOURCE NOT FOUND"
resource_result (some r) = resource_info_result r

abbrev pub pending_result : Option ResourceInfo → ℕ → ControlResult
pending_result none count = control_error "RESOURCE NOT FOUND"
pending_result (some _) count = pending_tasks_result count

-- The overloads of `handleCommand`, one for each command but the creation of a task.
unfoldable pub handle_get_task_status : ℕ → TaskStore → ControlResult × TaskStore
unfolding status
handle_get_task_status id tasks = (task_status_result (status id tasks), tasks)

unfoldable pub handle_get_task_result : ℕ → TaskStore → ControlResult × TaskStore
unfolding status take_completed_control_task
handle_get_task_result id tasks =
    if is_waiting (status id tasks)
    then (control_error "JOB IS WAITING", tasks)
    else taken_result (take_completed_control_task id tasks)

unfoldable pub handle_get_cancel_reason : ℕ → TaskStore → ControlResult × TaskStore
unfolding status take_completed_control_task
handle_get_cancel_reason id tasks =
    if is_waiting (status id tasks)
    then (control_error "JOB IS WAITING", tasks)
    else taken_reason (take_completed_control_task id tasks)

unfoldable pub handle_list_resources : TaskStore → ControlResult × TaskStore
handle_list_resources tasks = (resource_list_result resources, tasks)

unfoldable pub handle_get_resource_info : String → TaskStore → ControlResult × TaskStore
unfolding ResourceRegistry.find
handle_get_resource_info name tasks = (resource_result (ResourceRegistry.find name), tasks)

unfoldable pub handle_query_pending_tasks : String → TaskStore → ControlResult × TaskStore
unfolding ResourceRegistry.find pending_count
handle_query_pending_tasks name tasks =
    (pending_result (ResourceRegistry.find name) (pending_count tasks), tasks)

abbrev pub handle_invalid : String → TaskStore → ControlResult × TaskStore
handle_invalid message tasks = (control_error message, tasks)

unfoldable pub apply_create : CreateQuantumTaskCommand → QuantumTask → QuantumTask
apply_create command task = record task {
  n_qbits = 0;
  n_shots = command.shots;
  circuit_file_type = command.circuit_format;
  preferred_qpu = command.resource_name;
  no_modify = command.no_modify;
  via_hpc = true;
  circuit_files = task.circuit_files ++ command.circuit_files;
}

-- What a command leaves: its result, the task to send to QRM, and the state.
pub record Execution : Type 0 where
  pub result : ControlResult
  pub outbound_task : Option QuantumTask
  pub tasks : TaskStore
  pub forwarder : Forward

abbrev pub handled : ControlResult × TaskStore → Forward → Execution
handled (result, tasks) f = record {
  result = result;
  outbound_task = none;
  tasks = tasks;
  forwarder = f;
}

abbrev pub created : QuantumTask × TaskStore × Forward → Execution
created (forwarded, tasks, f) = record {
  result = task_created (int32_to_uint64 forwarded.task_id);
  outbound_task = some forwarded;
  tasks = tasks;
  forwarder = f;
}

-- `executeControlCommand`.
unfoldable pub execute : ControlCommand → TaskStore → Config → Forward → Execution
unfolding handle_get_task_status handle_get_task_result handle_get_cancel_reason
    handle_list_resources handle_get_resource_info handle_query_pending_tasks apply_create
    create_control_task
execute (create_quantum_task command) tasks config f =
    created (create_control_task (apply_create command blank_task) tasks config f)
execute (get_task_status id) tasks config f = handled (handle_get_task_status id tasks) f
execute (get_task_result id) tasks config f = handled (handle_get_task_result id tasks) f
execute (get_cancel_reason id) tasks config f = handled (handle_get_cancel_reason id tasks) f
execute list_resources tasks config f = handled (handle_list_resources tasks) f
execute (get_resource_info name) tasks config f = handled (handle_get_resource_info name tasks) f
execute (query_pending_tasks name) tasks config f =
    handled (handle_query_pending_tasks name tasks) f
execute (invalid message) tasks config f = handled (handle_invalid message tasks) f

unfoldable pub protocol_for : TypedRequest → ControlProtocol
unfolding typed_protocol rest_protocol
protocol_for TypedRequest.typed_request_not_set = rest_protocol
protocol_for _ = typed_protocol

pub record ControlMessageOutcome : Type 0 where
  pub outbound_task : Option QuantumTask
  pub response : ApiResponse

unfoldable pub process :
    ApiRequest → TaskStore → Config → Forward → ControlMessageOutcome × TaskStore × Forward
unfolding protocol_for execute
process request tasks config f =
    let protocol = protocol_for request.typed_request in
    let decoded = protocol.decode request in
    let outcome = execute decoded.command tasks config f in
    (
      record {
        outbound_task = outcome.outbound_task;
        response = protocol.encode outcome.result decoded.response_queue;
      },
      outcome.tasks,
      outcome.forwarder,
    )
