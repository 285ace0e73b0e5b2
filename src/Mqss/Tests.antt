-- ===== src/Mqss/Tests.antt =====
-- Codecs, typed delivery and feature sets at concrete inputs.
use mqss_integration_deploym.Base.{
  String, true, ◌≡◌, ℕ, ◌+◌, ◌≤◌, false, if◌then◌else◌, ◌==◌, string_eq, refl, List, [], ◌∷◌,
  Option, none, some, arith,
}
use mqss_integration_deploym.Mqss.Status
use mqss_integration_deploym.Mqss.Status.{unexpected, value}
use mqss_integration_deploym.Mqss.Message.{Address, Envelope, blank_envelope}
use mqss_integration_deploym.Mqss.Transport.{default_receive_args, manual}
use mqss_integration_deploym.Mqss.InMemory.{queue_at, new_state, woken, elapsed}
use mqss_integration_deploym.Mqss.InMemory.Adapter.{opened}
use mqss_integration_deploym.Mqss.Codec.{Protobuf, RoundTrips, proto_binary, proto_json, codec}
use mqss_integration_deploym.Mqss.Consumer
use mqss_integration_deploym.Mqss.Consumer.{task, consumer_succeeds}
use mqss_integration_deploym.Qoffload.Proto.{QuantumTask}
use mqss_integration_deploym.Mqss.TypedDelivery.{receive_all, send_all, receive_all-send_all}
use mqss_integration_deploym.Mqss.Rabbit.{
  Delivery, AckState, returned, threw, make_message_from_delivery,
}
use mqss_integration_deploym.Mqss.Rabbit.Completion.{
  acks, nacks, complete, complete_all, successes, completed_at_most_once,
}
use mqss_integration_deploym.Mqss.Config.{Environment}
use mqss_integration_deploym.Qoffload.Decimal.{to_string}
use mqss_integration_deploym.Qoffload.Path.{text}

-- A runtime for a message type with one string field: JSON puts a brace before it.
abbrev unbraced : String → Option String
unbraced String.[] = none
unbraced (String.◌∷◌ c s) = some s

abbrev texts : Protobuf String
texts = record {
  serialize_to_string = λ s. some s;
  parse_from_string = λ s. some s;
  message_to_json_string = λ s. some (String.◌∷◌ "{" s);
  json_string_to_message = unbraced;
}

texts-RoundTrips : RoundTrips texts
texts-RoundTrips = record { binary = λ msg s h. cc; json = λ msg s h. ground arith }

abbrev json_envelope : Envelope
json_envelope = record blank_envelope { payload = "{ghz"; content_type = "application/json" }

encoded_json : (codec texts proto_json).encode "ghz" ≡ value json_envelope
unfolding codec
encoded_json = refl

not_json :
    (codec texts proto_json).decode blank_envelope
    ≡ unexpected (Status.serialization "protobuf JSON parse failed")
unfolding codec
not_json = refl

abbrev at : Address
at = record { name = "jobs" }

abbrev sent_values : List String
sent_values = "a" ∷ "b" ∷ []

receive_all-send_all_example :
    receive_all
      (codec texts proto_binary)
      at
      2
      default_receive_args
      (send_all (codec texts proto_binary) at sent_values (opened new_state (woken ∷ elapsed ∷ [])))
    ≡ some (value "a") ∷ some (value "b") ∷ []
unfolding codec queue_at
receive_all-send_all_example =
    receive_all-send_all (codec texts proto_binary) at sent_values
      (record blank_envelope { payload = "a"; content_type = "application/x-protobuf" }
        ∷ record blank_envelope { payload = "b"; content_type = "application/x-protobuf" }
        ∷ [])
      default_receive_args new_state (woken ∷ elapsed ∷ []) refl refl refl
      (refl, refl, (refl, refl, tt))

-- Only the second name of the instance number is defined.
abbrev daemon_uid : Environment
daemon_uid name = if name == "QOFFLOAD_DAEMON_UID" then some "42" else none

printed_42 : text (to_string 42) ≡ "42"
unfolding to_string
printed_42 = refl

-- A client whose acknowledgment fails; the world counts the calls.
abbrev unlucky : Delivery ℕ
unlucky = record {
  basic_ack = λ calls. (threw "closed", calls + 1);
  basic_reject = λ again calls. (returned tt, calls + 1);
}

abbrev unused : AckState ℕ
unused = record { completed = false; world = 0 }

completed_at_most_once_example :
    successes
      (complete_all
        (make_message_from_delivery unlucky blank_envelope manual)
        (acks ∷ nacks true ∷ nacks false ∷ acks ∷ [])
        unused).0
    ≤ 1
completed_at_most_once_example =
    completed_at_most_once unlucky blank_envelope (acks ∷ nacks true ∷ nacks false ∷ acks ∷ [])
      unused

rejected :
    Status.is_ok
      (complete (make_message_from_delivery unlucky blank_envelope manual) (nacks true) unused).0
    ≡ true
unfolding complete make_message_from_delivery
rejected = refl

-- A runtime that writes a task as its destination.
abbrev task_runtime : Protobuf QuantumTask
task_runtime = record {
  serialize_to_string = λ t. if t.result_destination == "results.queue" then some "task" else none;
  parse_from_string = λ s. some task;
  message_to_json_string = λ t. none;
  json_string_to_message = λ s. none;
}

consumer_succeeds_example : Consumer.main task_runtime [] ≡ some 0
consumer_succeeds_example = consumer_succeeds task_runtime "task" [] refl refl
