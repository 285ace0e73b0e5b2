-- ===== src/Mqss/Consumer.antt =====
-- examples/mqss_consumer/main.cpp: one task sent and received through the in-memory transport.
use mqss_integration_deploym.Base.{
  ℕ, String, ◌≡◌, refl, ap, ◌∙◌, List, [], ◌||◌, not, Option, none, some, arith, string_eq, nat_eq,
  ◌==◌, if◌then◌else◌,
}
use mqss_integration_deploym.Mqss.Status
use mqss_integration_deploym.Mqss.Status.{Status, Result, value, unexpected}
use mqss_integration_deploym.Mqss.Codec.{
  Protobuf, proto_binary, codec, encode_binary, decode_binary,
}
use mqss_integration_deploym.Mqss.Message.{Address, Envelope, blank_envelope}
use mqss_integration_deploym.Mqss.Transport.{ReceiveArgs, auto, default_send_args}
use mqss_integration_deploym.Mqss.InMemory.{Event, new_state, push_back, queue_at}
use mqss_integration_deploym.Mqss.InMemory.Adapter.{Handle, in_memory, opened, send-opened}
use mqss_integration_deploym.Mqss.Messenger
use mqss_integration_deploym.Mqss.TypedDelivery.{receive-decoded}
use mqss_integration_deploym.Qoffload.Proto.{QuantumTask, blank_task}

abbrev pub task : QuantumTask
task = record blank_task {
  task_id = 119;
  n_qbits = 5;
  n_shots = 1024;
  result_destination = "results.queue";
}

abbrev pub tasks : Address
tasks = record { name = "tasks" }

abbrev pub at_once : ReceiveArgs
at_once = record { timeout = some 0; ack_mode = auto }

-- The comparison of the fields, and the exit code.
abbrev pub checked : QuantumTask → ℕ
checked decoded =
    if not (decoded.task_id == 119)
      || not (decoded.n_qbits == 5)
      || not (decoded.n_shots == 1024)
      || not (decoded.result_destination == "results.queue")
    then 1
    else 0

abbrev pub received : Option (Result QuantumTask × Handle) → Option ℕ
received none = none
received (some (unexpected error, h)) = some 1
received (some (value decoded, h)) = some (checked decoded)

module _ (protobuf : Protobuf QuantumTask) where
  abbrev pub after_send : Status × Handle → Option ℕ
  after_send (status, h) =
      if Status.is_ok status
      then received (Messenger.receive in_memory (codec protobuf proto_binary) tasks at_once h)
      else some 1

  -- `main` on a new transport; the schedule says what other threads do. `none` is a receive that has not
  -- returned.
  unfoldable pub main : List Event → Option ℕ
  unfolding Messenger.send Messenger.receive
  main es = after_send (
      Messenger.send in_memory (codec protobuf proto_binary) tasks task default_send_args
        (opened new_state es))

  abbrev sent_envelope : String → Envelope
  sent_envelope payload = record blank_envelope {
    payload = payload;
    content_type = "application/x-protobuf";
  }

  task_encoded :
      (payload : String)
      → protobuf.serialize_to_string task ≡ some payload
      → (codec protobuf proto_binary).encode task ≡ value (sent_envelope payload)
  unfolding codec encode_binary
  task_encoded payload written = ground arith

  task_decoded :
      (payload : String)
      → protobuf.parse_from_string payload ≡ some task
      → (codec protobuf proto_binary).decode (sent_envelope payload) ≡ value task
  unfolding codec decode_binary
  task_decoded payload read = ground arith

  task_sent :
      (payload : String) (es : List Event)
      → protobuf.serialize_to_string task ≡ some payload
      → Messenger.send in_memory
          (codec protobuf proto_binary)
          tasks
          task
          default_send_args
          (opened new_state es)
        ≡ (Status.success, opened (push_back tasks (sent_envelope payload) new_state).1 es)
  unfolding Messenger.send
  task_sent payload es written =
      rw (task_encoded payload written, Messenger.send)
        (send-opened tasks (sent_envelope payload) new_state es refl refl)

  -- With a protobuf runtime that writes the task and reads back what it has written, the program ends
  -- with exit code 0, whatever the schedule says that other threads do while it receives.
  pub consumer_succeeds :
      (payload : String) (es : List Event)
      → protobuf.serialize_to_string task ≡ some payload
      → protobuf.parse_from_string payload ≡ some task
      → main es ≡ some 0
  unfolding main push_back queue_at
  consumer_succeeds payload es written read =
      ap after_send (task_sent payload es written)
      ∙ ap received (
          receive-decoded (codec protobuf proto_binary) tasks task (sent_envelope payload) []
            at_once (push_back tasks (sent_envelope payload) new_state).1 es refl refl refl
            (task_decoded payload read))
