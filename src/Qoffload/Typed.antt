-- ===== src/Qoffload/Typed.antt =====
-- examples/qoffload_service/src/control/TypedControlProtocol.cpp.
use mqss_integration_deploym.Base.{String, [], ◌∷◌, map, string_eq}
use mqss_integration_deploym.Words.{to_int32, int32_to_uint64}
use mqss_integration_deploym.Qoffload.Proto.{
  ApiRequest, ApiResponse, TypedRequest, TypedResponse, TaskResultResponse, ResourceInfoResponse,
  CreateTaskRequest, Counts, ApiTaskStatus, end,
}
use mqss_integration_deploym.Dict.{insert_or_assign}
use mqss_integration_deploym.Qoffload.TaskStore.{
  waiting, completed, cancelled, not_found, CompletedControlTask,
}
use mqss_integration_deploym.Qoffload.ResourceRegistry.{ResourceInfo}
use mqss_integration_deploym.Qoffload.Protocol.{
  ControlCommand, ControlResult, DecodedControlRequest, ControlProtocol, CreateQuantumTaskCommand,
  create_quantum_task, get_task_status, get_task_result, get_cancel_reason, list_resources,
  get_resource_info, query_pending_tasks, invalid, task_created, task_status_result,
  task_result_result, cancel_reason_result, resource_list_result, resource_info_result,
  pending_tasks_result, control_error,
}

abbrev pub make_create_command : CreateTaskRequest → CreateQuantumTaskCommand
make_create_command r = record {
  shots = r.shots;
  circuit_files = r.circuit;
  circuit_format = r.circuit_format;
  resource_name = r.resource_name;
  no_modify = r.no_modify;
}

unfoldable pub command_of : TypedRequest → ControlCommand
command_of (TypedRequest.create_task r) = create_quantum_task (make_create_command r)
command_of (TypedRequest.task_status uuid) = get_task_status (int32_to_uint64 uuid)
command_of (TypedRequest.task_result uuid) = get_task_result (int32_to_uint64 uuid)
command_of (TypedRequest.cancel_reason uuid) = get_cancel_reason (int32_to_uint64 uuid)
command_of TypedRequest.list_resources = list_resources
command_of (TypedRequest.resource_info name) = get_resource_info name
command_of (TypedRequest.pending_tasks name) = query_pending_tasks name
command_of TypedRequest.typed_request_not_set = invalid "INVALID CONTROL REQUEST"

unfoldable pub decode : ApiRequest → DecodedControlRequest
unfolding command_of
decode request = record {
  command = command_of request.typed_request;
  response_queue = request.response_queue;
}

abbrev pub resource_response : ResourceInfo → ResourceInfoResponse
resource_response r = record { name = r.name; num_qubits = to_int32 r.qubits; online = r.online }

-- `(*output)[state] = count` for each entry.
unfoldable pub output_counts : Counts → Counts → Counts
unfolding insert_or_assign
output_counts output [] = output
output_counts output ((state, count) ∷ entries) =
    output_counts (insert_or_assign state count output) entries

abbrev pub task_result_response : CompletedControlTask → TaskResultResponse
task_result_response t = record {
  result = map (output_counts []) t.result_counts;
  timestamp_submitted = t.timestamp_submitted;
  timestamp_scheduled = t.timestamp_scheduled;
  timestamp_completed = t.timestamp_completed;
}

unfoldable pub response_of : ControlResult → TypedResponse
unfolding output_counts
response_of (task_created id) = TypedResponse.create_task (to_int32 id)
response_of (task_status_result waiting) = TypedResponse.task_status ApiTaskStatus.waiting
response_of (task_status_result completed) = TypedResponse.task_status ApiTaskStatus.completed
response_of (task_status_result cancelled) = TypedResponse.task_status ApiTaskStatus.cancelled
response_of (task_status_result not_found) = TypedResponse.error "JOB NOT FOUND"
response_of (task_result_result task) = TypedResponse.task_result (task_result_response task)
response_of (cancel_reason_result reason) = TypedResponse.cancel_reason reason
response_of (resource_list_result rs) = TypedResponse.resources (map (λ r. r.name) rs)
response_of (resource_info_result r) = TypedResponse.resource_info (resource_response r)
response_of (pending_tasks_result count) = TypedResponse.pending_tasks (to_int32 count)
response_of (control_error message) = TypedResponse.error message

unfoldable pub encode : ControlResult → String → ApiResponse
unfolding response_of
encode result destination_queue = record {
  response_body = end;
  destination_queue = destination_queue;
  typed_response = response_of result;
}

unfoldable pub typed_protocol : ControlProtocol
unfolding decode encode
typed_protocol = record { decode = decode; encode = encode }
