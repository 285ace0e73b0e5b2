-- ===== src/Mqss/Messenger.antt =====
-- include/mqss/Messenger.hpp: a typed facade over a transport and a codec. Construction selects the
-- transport; the facade itself keeps no other state.
use mqss_integration_deploym.Base.{Option, none, some}
use mqss_integration_deploym.Mqss.Status.{Status, Result, value, unexpected}
use mqss_integration_deploym.Mqss.Message.{Address, Message}
use mqss_integration_deploym.Mqss.Transport.{Transport, SendArgs, ReceiveArgs, FeatureSet}
use mqss_integration_deploym.Mqss.Codec.{Codec}

module _ {S : Type 0} (transport : Transport S) where
  unfoldable pub features : FeatureSet
  features = transport.features

  module _ {T : Type 0} (codec : Codec T) where
    unfoldable pub send : Address → T → SendArgs → S → Status × S
    send dest v args s = elim (codec.encode v) [
      | unexpected error ↦ (error, s)
      | value encoded ↦ transport.send dest encoded args s
    ]

    -- The decoded payload with the message that it came in; the message is taken off the transport
    -- before it is decoded.
    abbrev decoded : Message S → S → Result T → Result (T × Message S) × S
    decoded msg s (value v) = (value (v, msg), s)
    decoded msg s (unexpected error) = (unexpected error, s)

    abbrev opened : Result (Message S) × S → Result (T × Message S) × S
    opened (unexpected error, s) = (unexpected error, s)
    opened (value msg, s) = decoded msg s (codec.decode msg.envelope)

    unfoldable pub receive_extended :
        Address → ReceiveArgs → S → Option (Result (T × Message S) × S)
    receive_extended src args s = elim (transport.receive src args s) [
      | none ↦ none
      | some received ↦ some (opened received)
    ]

    abbrev first : Result (T × Message S) × S → Result T × S
    first (unexpected error, s) = (unexpected error, s)
    first (value (v, msg), s) = (value v, s)

    unfoldable pub receive : Address → ReceiveArgs → S → Option (Result T × S)
    unfolding receive_extended
    receive src args s = elim (receive_extended src args s) [
      | none ↦ none
      | some received ↦ some (first received)
    ]
