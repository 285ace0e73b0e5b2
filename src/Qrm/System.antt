-- ===== src/Qrm/System.antt =====
-- The whole installation: a client of the offload service of examples/qoffload_service, whose queue for
-- QRM is the queue of the scheduler of examples/qrm_workflow, and the workflow behind it.
mod Tests
use mqss_integration_deploym.Base.{
  List, [], ◌∷◌, string_eq, Eq, ◌==◌, Option, none, some, if◌then◌else◌,
}
use mqss_integration_deploym.Mqss.Status
use mqss_integration_deploym.Mqss.Status.{Status}
use mqss_integration_deploym.Qoffload.Config.{Config, RabbitMqConfig}
use mqss_integration_deploym.Qoffload.Service as Offload
use mqss_integration_deploym.Qoffload.Service.{
  Service, Effect, send_task, send_response, send_result, log_error, sent_over,
}
use mqss_integration_deploym.Qrm.Pipeline.{Broker}

-- `reach` is the broker that a connection comes to, and each broker has a state.
module _ {B N : Type 0} ⦃e : Eq B⦄ (broker : Broker N) (reach : RabbitMqConfig → B) where
  abbrev pub placed : B → N → (B → N) → B → N
  placed b n brokers j = if b == j then n else brokers j

  abbrev pub pushed : Effect → N → N
  pushed (send_task queue task) n = broker.push_task queue task n
  pushed (send_response queue response) n = n
  pushed (send_result queue result) n = broker.push_result queue result n
  pushed (log_error message reason) n = n

  abbrev pub pushed_over : Option RabbitMqConfig → Effect → (B → N) → B → N
  pushed_over none effect brokers = brokers
  pushed_over (some connection) effect brokers =
      placed (reach connection) (pushed effect (brokers (reach connection))) brokers

  -- The brokers after the sends of a round.
  abbrev pub all_sent : Config → List Effect → (B → N) → B → N
  all_sent config [] brokers = brokers
  all_sent config (effect ∷ effects) brokers =
      all_sent config effects (pushed_over (sent_over config effect) effect brokers)
