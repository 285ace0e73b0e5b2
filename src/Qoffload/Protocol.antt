-- ===== src/Qoffload/Protocol.antt =====
-- examples/qoffload_service/src/control/ControlProtocol.hpp: the commands and results of the control
-- interface, and the adapter interface that both protocols implement.
use mqss_integration_deploym.Base.{ℕ, String, Bool, List}
use mqss_integration_deploym.Qoffload.Proto.{ApiRequest, ApiResponse}
use mqss_integration_deploym.Qoffload.TaskStore.{TaskStatus, CompletedControlTask}
use mqss_integration_deploym.Qoffload.ResourceRegistry.{ResourceInfo}

-- `shots` is an `int`.
pub record CreateQuantumTaskCommand : Type 0 where
  pub shots : ℕ
  pub circuit_files : List String
  pub circuit_format : String
  pub resource_name : String
  pub no_modify : Bool

-- The variant; the argument of a command with one field is that field.
pub data ControlCommand : Type 0 where
  create_quantum_task : CreateQuantumTaskCommand → ControlCommand
  get_task_status get_task_result get_cancel_reason : (task_id : ℕ) → ControlCommand
  list_resources : ControlCommand
  get_resource_info query_pending_tasks : (resource_name : String) → ControlCommand
  invalid : (message : String) → ControlCommand

pub data ControlResult : Type 0 where
  task_created : (task_id : ℕ) → ControlResult
  task_status_result : TaskStatus → ControlResult
  task_result_result : CompletedControlTask → ControlResult
  cancel_reason_result : (reason : String) → ControlResult
  resource_list_result : List ResourceInfo → ControlResult
  resource_info_result : ResourceInfo → ControlResult
  pending_tasks_result : (count : ℕ) → ControlResult
  control_error : (message : String) → ControlResult

pub record DecodedControlRequest : Type 0 where
  pub command : ControlCommand
  pub response_queue : String

-- The abstract class.
pub record ControlProtocol : Type 0 where
  pub decode : ApiRequest → DecodedControlRequest
  pub encode : ControlResult → String → ApiResponse
