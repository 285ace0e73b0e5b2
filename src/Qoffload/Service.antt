-- ===== src/Qoffload/Service.antt =====
-- examples/qoffload_service: QOffload.hpp and QOffload.cpp. Each worker is one round of its loop: what
-- was received, the state before and after, and what is sent and logged. The statuses of the sends are
-- arguments. A run of the service is a list of rounds in the order in which they take effect.
pub mod Invariant
pub mod Steps
pub mod Routing
use mqss_integration_deploym.Base.{
  ℕ, String, Bool, true, false, not, List, [], ◌∷◌, ◌++◌, Option, none, some, is_empty,
  if◌then◌else◌,
}
use mqss_integration_deploym.Mqss.StatusCode
use mqss_integration_deploym.Mqss.Status
use mqss_integration_deploym.Mqss.Status.{Status, Result, value, unexpected}
use mqss_integration_deploym.Mqss.Rabbit.Options.{TransportOptions}
use mqss_integration_deploym.Qoffload.Proto.{QuantumTask, QuantumResult, ApiRequest, ApiResponse}
use mqss_integration_deploym.Qoffload.Config.{Config, RabbitMqConfig}
use mqss_integration_deploym.Qoffload.TaskStore.{TaskStore, new_store}
use mqss_integration_deploym.Qoffload.Forward.{
  Forward, new_forward, forward_direct_task, process_result, ResultProcessingOutcome,
  ResultProcessingKind, direct_result, unknown_task, control_result_stored,
}
use mqss_integration_deploym.Qoffload.Control.{process, ControlMessageOutcome}

-- `makeTransportOptions`.
unfoldable pub make_transport_options : RabbitMqConfig → TransportOptions
make_transport_options config = record {
  host = config.host;
  port = config.port;
  username = config.user;
  password = config.password;
  vhost = config.vhost;
}

pub record Service : Type 0 where
  pub config : Config
  pub tasks : TaskStore
  pub forwarder : Forward
  pub workers : Bool
  pub running : Bool

abbrev pub new_service : Config → Service
new_service config = record {
  config = config;
  tasks = new_store;
  forwarder = new_forward config.identity.instance_uid;
  workers = false;
  running = false;
}

-- `start`: the exchange of `running_` decides whether the workers are started.
unfoldable pub start : Service → Service
start s = if s.running then s else record s { running = true; workers = true }

-- `requestStop`: the workers are stopped and joined.
unfoldable pub request_stop : Service → Service
request_stop s = if s.running then record s { running = false; workers = false } else s

pub data Effect : Type 0 where
  send_task : (queue : String) → QuantumTask → Effect
  send_response : (queue : String) → ApiResponse → Effect
  send_result : (queue : String) → QuantumResult → Effect
  log_error : (message reason : String) → Effect

-- Which of its two messengers a worker sends over, by its configuration.
unfoldable pub sent_over : Config → Effect → Option RabbitMqConfig
sent_over config (send_task queue task) = some config.qrm_rabbitmq
sent_over config (send_response queue response) = some config.rabbitmq
sent_over config (send_result queue result) = some config.rabbitmq
sent_over config (log_error message reason) = none

-- A failed receive: a timeout is passed over, anything else is logged.
abbrev pub receive_failure : String → Status → List Effect
receive_failure message error =
    if StatusCode.is_timeout error.code then [] else log_error message error.reason ∷ []

-- A send with the log line of its failure.
abbrev pub sent : Effect → String → Status → List Effect
sent effect message status =
    if Status.is_ok status then effect ∷ [] else effect ∷ log_error message status.reason ∷ []

-- One round of the task-interface worker.
unfoldable pub task_round : Result QuantumTask → Status → Service → List Effect × Service
unfolding forward_direct_task
task_round (unexpected error) status s =
    (receive_failure "Failed to receive QuantumTask: {}" error, s)
task_round (value request) status s =
    let (qrm_task, tasks, forwarder) = forward_direct_task request s.tasks s.config s.forwarder in
    (
      sent (send_task s.config.queues.qrm_task qrm_task) "Failed to forward QuantumTask: {}" status,
      record s { tasks = tasks; forwarder = forwarder },
    )

abbrev pub outbound_effects : Config → Option QuantumTask → Status → List Effect
outbound_effects config none status = []
outbound_effects config (some task) status =
    sent (send_task config.queues.qrm_task task) "Failed to forward control QuantumTask: {}" status

abbrev pub response_effects : ApiResponse → Status → List Effect
response_effects response status =
    if is_empty response.destination_queue
    then []
    else sent (send_response response.destination_queue response)
        "Failed to send control APIResponse: {}" status

-- One round of the control-interface worker.
unfoldable pub control_round : Result ApiRequest → Status → Status → Service → List Effect × Service
unfolding process
control_round (unexpected error) task_status response_status s =
    (receive_failure "Failed to receive control APIRequest: {}" error, s)
control_round (value request) task_status response_status s =
    let (outcome, tasks, forwarder) = process request s.tasks s.config s.forwarder in
    (
      outbound_effects s.config outcome.outbound_task task_status
          ++ response_effects outcome.response response_status,
      record s { tasks = tasks; forwarder = forwarder },
    )

abbrev pub result_effects :
    ResultProcessingKind → Option QuantumResult → String → Status → List Effect
result_effects direct_result (some result) queue status =
    sent (send_result queue result) "Failed to send mapped QuantumResult: {}" status
result_effects direct_result none queue status = []
result_effects unknown_task result queue status = []
result_effects control_result_stored result queue status = []

-- One round of the QRM-result worker.
unfoldable pub result_round : Result QuantumResult → Status → Service → List Effect × Service
unfolding process_result
result_round (unexpected error) status s =
    (receive_failure "Failed to receive QuantumResult: {}" error, s)
result_round (value result) status s =
    let (outcome, tasks) = process_result result s.tasks in
    (
      result_effects outcome.kind outcome.result outcome.result_destination status,
      record s { tasks = tasks },
    )

pub data Round : Type 0 where
  task_received : Result QuantumTask → Status → Round
  request_received : Result ApiRequest → Status → Status → Round
  result_received : Result QuantumResult → Status → Round

-- The messenger from which the worker of a round receives.
unfoldable pub received_over : Config → Round → RabbitMqConfig
received_over config (task_received received status) = config.rabbitmq
received_over config (request_received received task_status response_status) = config.rabbitmq
received_over config (result_received received status) = config.rabbitmq

unfoldable pub round : Round → Service → List Effect × Service
unfolding task_round control_round result_round
round (task_received received status) s = task_round received status s
round (request_received received task_status response_status) s =
    control_round received task_status response_status s
round (result_received received status) s = result_round received status s

unfoldable pub run : List Round → Service → List Effect × Service
run [] s = ([], s)
run (r ∷ rs) s =
    let (effects, s') = round r s in let (later, s'') = run rs s' in (effects ++ later, s'')
