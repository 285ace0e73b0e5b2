-- ===== src/Qrm/Scheduler.antt =====
-- examples/qrm_workflow/src/Scheduler.cpp: one round of the loop of `main`.
use mqss_integration_deploym.Base.{List}
use mqss_integration_deploym.Mqss.Status.{Status, Result, value, unexpected}
use mqss_integration_deploym.Qoffload.Proto.{QuantumTask}
use mqss_integration_deploym.Qrm.Config.{QueueConfig}
use mqss_integration_deploym.Qrm.Run.{Effect, send_task, not_received, after_send}

-- What was received, and the status of the send.
unfoldable pub scheduler_round : QueueConfig → Result QuantumTask → Status → List Effect
scheduler_round queues (unexpected error) status = not_received "Receive error: {}" error
scheduler_round queues (value task) status =
    after_send (send_task queues.compiler task) "Failed to send task: {}" status
