-- ===== src/Qrm/System/Tests.antt =====
-- The offload service and the workflow together, at a concrete input.
use mqss_integration_deploym.Base.{String, List, [], ◌∷◌, string_eq}
use mqss_integration_deploym.Mqss.Status
use mqss_integration_deploym.Mqss.Status.{value}
use mqss_integration_deploym.Qoffload.Config.{Config, RabbitMqConfig}
use mqss_integration_deploym.Qoffload.Fixtures
use mqss_integration_deploym.Qoffload.Fixtures.{request, other_request, result}
use mqss_integration_deploym.Qoffload.Forward.{forward_direct_task}
use mqss_integration_deploym.Qoffload.Proto.{QuantumTask}
use mqss_integration_deploym.Qoffload.Service as Offload
use mqss_integration_deploym.Qoffload.Service.{
  Service, Round, new_service, task_received, result_received,
}
use mqss_integration_deploym.Qrm.Fixtures.{Queues, queues, empty_queues}

-- The queue for QRM is the scheduler's.
abbrev joint_config : Config
joint_config = record Fixtures.config {
  qrm_rabbitmq = Fixtures.config.rabbitmq;
  queues = record {
    request = "request_queue";
    control_request = "api";
    result = "result_queue";
    qrm_task = "scheduler";
  };
}

abbrev s : Service
s = new_service joint_config

abbrev task : QuantumTask
task = (forward_direct_task request s.tasks s.config s.forwarder).0

abbrev other_rounds : List Round
other_rounds =
    task_received (value other_request) Status.success
    ∷ result_received (value (record result { task_id = 10007 })) Status.success
    ∷ []

abbrev reach : RabbitMqConfig → String
reach connection = connection.host

abbrev idle_brokers : String → Queues
idle_brokers host = empty_queues
