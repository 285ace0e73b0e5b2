-- ===== src/Qoffload/Rest/Encode.antt =====
-- The responses of RestControlProtocol.cpp: everything goes into the body.
use mqss_integration_deploym.Base.{String, Bool, List, [], ◌∷◌, string_eq, ◌==◌, if◌then◌else◌}
use mqss_integration_deploym.Qoffload.Double.{Double, double_of_int32, double_of_uint}
use mqss_integration_deploym.Qoffload.Decimal.{to_string}
use mqss_integration_deploym.Qoffload.Path.{text}
use mqss_integration_deploym.Qoffload.Proto.{
  Value, number_value, string_value, bool_value, struct_value, list_value, Fields, end, field,
  Values, nil, cons, Counts, ApiResponse, TypedResponse,
}
use mqss_integration_deploym.Qoffload.TaskStore.{
  waiting, completed, cancelled, not_found, CompletedControlTask,
}
use mqss_integration_deploym.Qoffload.ResourceRegistry.{ResourceInfo}
use mqss_integration_deploym.Qoffload.Protocol.{
  ControlResult, ControlProtocol, task_created, task_status_result, task_result_result,
  cancel_reason_result, resource_list_result, resource_info_result, pending_tasks_result,
  control_error,
}
use mqss_integration_deploym.Qoffload.Rest.{decode}

-- `(*body.mutable_fields())[key]` set to a value.
unfoldable pub set_field : String → Value → Fields → Fields
set_field key v end = field key v end
set_field key v (field k w fs) = if k == key then field key v fs else field k w (set_field key v fs)

abbrev pub set_string : String → String → Fields → Fields
set_string key s = set_field key (string_value s)

abbrev pub set_number : String → Double → Fields → Fields
set_number key d = set_field key (number_value d)

abbrev pub set_bool : String → Bool → Fields → Fields
set_bool key b = set_field key (bool_value b)

abbrev pub set_error : String → Fields → Fields
set_error = set_string "Error"

unfoldable pub counts_fields : Counts → Fields → Fields
unfolding set_field double_of_int32
counts_fields [] entry = entry
counts_fields ((state, count) ∷ counts) entry =
    counts_fields counts (set_number state (double_of_int32 count) entry)

unfoldable pub results_list : List Counts → Values
unfolding counts_fields
results_list [] = nil
results_list (counts ∷ rest) = cons (struct_value (counts_fields counts end)) (results_list rest)

unfoldable pub set_task_result : CompletedControlTask → Fields → Fields
unfolding results_list
set_task_result task body = set_string "timestamp_completed" task.timestamp_completed (
    set_string "timestamp_submitted" task.timestamp_submitted (
      set_string "timestamp_scheduled" task.timestamp_scheduled
        (set_field "result" (list_value (results_list task.result_counts)) body)))

unfoldable pub set_resource : ResourceInfo → Fields → Fields
unfolding set_field double_of_uint
set_resource r body =
    set_bool "online" r.online
      (set_number "qubits" (double_of_uint r.qubits) (set_string "name" r.name body))

unfoldable pub resources_list : List ResourceInfo → Values
unfolding set_resource
resources_list [] = nil
resources_list (r ∷ rs) = cons (struct_value (set_resource r end)) (resources_list rs)

unfoldable pub set_resources : List ResourceInfo → Fields → Fields
unfolding resources_list set_field
set_resources rs = set_field "resources" (list_value (resources_list rs))

unfoldable pub body_of : ControlResult → Fields → Fields
unfolding set_field set_task_result set_resource set_resources to_string double_of_uint
body_of (task_created id) = set_string "uuid" (text (to_string id))
body_of (task_status_result waiting) = set_string "status" "WAITING"
body_of (task_status_result completed) = set_string "status" "COMPLETED"
body_of (task_status_result cancelled) = set_string "status" "CANCELLED"
body_of (task_status_result not_found) = set_error "JOB NOT FOUND"
body_of (task_result_result task) = set_task_result task
body_of (cancel_reason_result reason) = set_string "cancel_reason" reason
body_of (resource_list_result rs) = set_resources rs
body_of (resource_info_result r) = set_resource r
body_of (pending_tasks_result count) = set_number "num_pending_jobs" (double_of_uint count)
body_of (control_error message) = set_error message

unfoldable pub encode : ControlResult → String → ApiResponse
unfolding body_of
encode result destination_queue = record {
  response_body = body_of result end;
  destination_queue = destination_queue;
  typed_response = TypedResponse.typed_response_not_set;
}

unfoldable pub rest_protocol : ControlProtocol
unfolding decode encode
rest_protocol = record { decode = decode; encode = encode }
