-- ===== src/Mqss/Rabbit.antt =====
-- src/transport/RabbitMqSimpleTransport.cpp: the completion of a delivered message. The AMQP client is
-- a parameter; a call of it returns or throws, and `W` is the state of the broker and the channel.
pub mod Completion
pub mod Options
pub mod Client
pub mod Envelopes
pub mod Translation
pub mod Publish
pub mod Consume
pub mod Trace
pub mod Sends
pub mod Consumers
pub mod Deadline
pub mod Shutdown
mod Tests
use mqss_integration_deploym.Base.{
  String, Bool, true, false, List, [], ◌∷◌, ◌++◌, Option, none, some, if◌then◌else◌,
}
use mqss_integration_deploym.Mqss.Status
use mqss_integration_deploym.Mqss.Status.{Status}
use mqss_integration_deploym.Mqss.Message.{Envelope, Message, ack, nack, set_ack_handlers}
use mqss_integration_deploym.Mqss.Transport.{
  AckMode, auto, manual, FeatureSet, feature_set, manual_ack, requeue,
}
use mqss_integration_deploym.Qoffload.Path.{chars, text}

pub features : FeatureSet
features = feature_set (manual_ack ∷ requeue ∷ [])

-- How a call of the client ends: with a result or with an exception, by its text.
pub data Outcome {ℓ} (A : Type ℓ) : Type ℓ where
  returned : A → Outcome A
  threw : (what : String) → Outcome A

abbrev pub Call : Type 0
Call = Outcome (Unit {0})

-- What the client does with the delivery of one message.
pub record Delivery (W : Type 0) : Type 0 where
  pub basic_ack : W → Call × W
  pub basic_reject : (again : Bool) → W → Call × W

-- `AckState`, with the broker and the channel that it keeps alive.
pub record AckState (W : Type 0) : Type 0 where
  pub completed : Bool
  pub world : W

abbrev pub concat : String → String → String
concat a b = text (chars a ++ chars b)

-- The `try` block of a handler: an exception leaves the message open.
abbrev pub attempted : {W : Type 0} → String → Call × W → Status × AckState W
attempted message (returned _, w) = (Status.success, record { completed = true; world = w })
attempted message (threw what, w) =
    (Status.internal (concat message what), record { completed = false; world = w })

module _ {W : Type 0} (delivery : Delivery W) where
  unfoldable pub ack_handler : AckState W → Status × AckState W
  ack_handler s =
      if s.completed
      then (Status.internal "message already acked/nacked", s)
      else attempted "ack failed: " (delivery.basic_ack s.world)

  unfoldable pub nack_handler : Bool → AckState W → Status × AckState W
  nack_handler again s =
      if s.completed
      then (Status.internal "message already acked/nacked", s)
      else attempted "nack failed: " (delivery.basic_reject again s.world)

  -- `makeMessageFromDelivery`, from the envelope of the delivery on.
  unfoldable pub make_message_from_delivery : Envelope → AckMode → Message (AckState W)
  unfolding ack_handler nack_handler set_ack_handlers
  make_message_from_delivery envelope auto = record {
    envelope = envelope;
    ack_impl = none;
    nack_impl = none;
  }
  make_message_from_delivery envelope manual =
      set_ack_handlers (record { envelope = envelope; ack_impl = none; nack_impl = none })
        ack_handler nack_handler
