-- ===== src/Qoffload/Threads/State.antt =====
-- examples/qoffload_service: where the workers of QOffload.cpp stand as threads.
use mqss_integration_deploym.Base.{true, ℕ, String, Bool, false}
use mqss_integration_deploym.Qoffload.Proto.{QuantumTask, QuantumResult, ApiRequest}
use mqss_integration_deploym.Qoffload.Config.{Config}
use mqss_integration_deploym.Qoffload.TaskStore.{TaskStore, CompletedControlTask}
use mqss_integration_deploym.Qoffload.Forward.{Forward}
use mqss_integration_deploym.Qoffload.Protocol.{ControlResult}
use mqss_integration_deploym.Qoffload.Service.{Service}

-- Where the task-interface worker stands, with the local variables that are live there.
pub data TaskWorker : Type 0 where
  awaiting_task : TaskWorker  -- at the test of its loop, before the receive
  numbering : (request : QuantumTask) → TaskWorker  -- before `nextTaskId`
  registering : (request : QuantumTask) (task_id : ℕ) → TaskWorker  -- before `addDirectTask`
  sending : (qrm_task : QuantumTask) → TaskWorker  -- before the send
  task_stopped : TaskWorker

-- The control-interface worker.
pub data ControlWorker : Type 0 where
  awaiting_request : ControlWorker
  executing : (request : ApiRequest) → ControlWorker  -- before its first access to what is shared
  creating : (request : ApiRequest) (task : QuantumTask) (task_id : ℕ) → ControlWorker
  fetching_result : (request : ApiRequest) (task_id : ℕ) → ControlWorker  -- after `status`
  fetching_reason : (request : ApiRequest) (task_id : ℕ) → ControlWorker
  forwarding : (request : ApiRequest) (task : QuantumTask) → ControlWorker  -- before the send to QRM
  responding : (request : ApiRequest) (result : ControlResult) → ControlWorker
  control_stopped : ControlWorker

-- The QRM-result worker.
pub data ResultWorker : Type 0 where
  awaiting_result : ResultWorker
  taking : (result : QuantumResult) → ResultWorker  -- before `takePending`
  storing : (completed : CompletedControlTask) → ResultWorker
  returning : (result : QuantumResult) (destination : String) → ResultWorker
  result_stopped : ResultWorker

-- Whether each worker has been asked to stop.
pub record StopTokens : Type 0 where
  pub task : Bool
  pub control : Bool
  pub result : Bool

pub data WorkerName : Type 0 where
  task_interface control_interface qrm_result : WorkerName

-- `worker.request_stop()`.
unfoldable pub request_stop : WorkerName → StopTokens → StopTokens
request_stop task_interface tokens = record tokens { task = true }
request_stop control_interface tokens = record tokens { control = true }
request_stop qrm_result tokens = record tokens { result = true }

pub record Threads : Type 0 where
  pub config : Config
  pub tasks : TaskStore
  pub forwarder : Forward
  pub stop_tokens : StopTokens
  pub task_worker : TaskWorker
  pub control_worker : ControlWorker
  pub result_worker : ResultWorker

-- The workers before their first receive, on the state of a service.
abbrev pub at_rest : Service → Threads
at_rest s = record {
  config = s.config;
  tasks = s.tasks;
  forwarder = s.forwarder;
  stop_tokens = record { task = false; control = false; result = false };
  task_worker = awaiting_task;
  control_worker = awaiting_request;
  result_worker = awaiting_result;
}
