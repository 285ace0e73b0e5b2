-- ===== src/Mqss/Rabbit/Tests.antt =====
-- The RabbitMQ transport against a broker with one queue.
use mqss_integration_deploym.Base.{
  leb, ◌-◌, ◌⊎◌, inl, inr, Bool-cases, ℕ, suc, ◌+◌, ◌*◌, String, true, false, ◌≡◌, ◌≢◌, refl, List,
  [], ◌∷◌, ◌++◌, ◌<◌, Option, none, some, arith, is_some, is_empty, string_eq,
}
use mqss_integration_deploym.Dict.{find, IsDistinct}
use mqss_integration_deploym.Mqss.Status
use mqss_integration_deploym.Mqss.Message.{Envelope, blank_envelope}
use mqss_integration_deploym.Mqss.Transport.{SendArgs, ReceiveArgs, auto, manual}
use mqss_integration_deploym.Mqss.Rabbit.{Outcome, returned, threw}
use mqss_integration_deploym.Mqss.Rabbit.Options.{default_options}
use mqss_integration_deploym.Mqss.Rabbit.Client.{Client, Surroundings}
use mqss_integration_deploym.Mqss.Rabbit.Envelopes.{
  Properties, only_body, BasicMessages, Keeps, to_basic_message, from_basic_message,
}
use mqss_integration_deploym.Mqss.Rabbit.Publish.{Sender, send}
use mqss_integration_deploym.Mqss.Rabbit.Consume.{deliver, receive, nanoseconds}
use mqss_integration_deploym.Mqss.Rabbit.Trace.{
  consumes, cancels, polls, declares, Logged, logged, seen,
}
use mqss_integration_deploym.Mqss.Rabbit.Sends.{calls_of_send, rabbit_send-success}
use mqss_integration_deploym.Mqss.Rabbit.Consumers.{Balanced, deliver-Balanced}
use mqss_integration_deploym.Mqss.Rabbit.Deadline.{Passes, rabbit_receive-returns}
use mqss_integration_deploym.Mqss.Rabbit.Shutdown.{Stops, rabbit_receive_waits-returns}
use mqss_integration_deploym.Mqss.Rabbit.Translation.{envelope_round_trip}

-- A header value is a string or something else.
abbrev messages : BasicMessages (Properties (Option String)) (Option String)
messages = record {
  create = only_body;
  set_content_type = λ s m. record m { content_type = some s };
  set_correlation_id = λ s m. record m { correlation_id = some s };
  set_reply_to = λ s m. record m { reply_to = some s };
  set_header_table = λ t m. record m { header_table = some t };
  properties = λ m. m;
  table_value = λ s. some s;
  get_string = λ v. v;
}

messages-keep : Keeps messages
messages-keep = record {
  created = λ body. refl;
  typed = λ s m. refl;
  correlated = λ s m. refl;
  addressed = λ s m. refl;
  headed = λ t m. refl;
  read_back = λ s. refl;
}

abbrev Basic : Type 0
Basic = Properties (Option String)

record World : Type 0 where
  queued : List Basic
  now : ℕ

abbrev popped_from : ℕ → World → List Basic → Outcome (Option Basic) × World
popped_from ms w [] = (returned none, record w { now = w.now + suc ms * nanoseconds })
popped_from ms w (m ∷ rest) = (returned (some m), record w { queued = rest })

abbrev popped : ℕ → World → Outcome (Option Basic) × World
popped ms w = popped_from ms w w.queued

popped_later :
    (ms : ℕ) (w w' : World) (queued : List Basic)
    → popped_from ms w queued ≡ (returned none, w')
    → w.now < w'.now
popped_later ms w w' queued e = ground arith

abbrev one_queue : Client World Unit Basic Basic
one_queue = record {
  create = λ host port username password vhost w. (returned tt, w);
  declare_queue = λ ch name w. (returned tt, w);
  basic_publish = λ ch key m w. (returned tt, record w { queued = w.queued ++ (m ∷ []) });
  basic_get = λ ch queue no_ack. popped 0;
  basic_consume = λ ch queue no_ack w. (returned "tag", w);
  basic_cancel = λ ch tag w. (threw "no such consumer", w);
  basic_consume_message = λ ch tag. popped;
  basic_ack = λ ch d w. (returned tt, w);
  basic_reject = λ ch d again w. (returned tt, w);
  message = λ d. d;
}

abbrev running : Surroundings World
running = record {
  options = default_options;
  stopped = λ w. false;
  clock = λ w. w.now;
  set_stopped = λ w. w;
}

abbrev down : Surroundings World
down = record {
  options = default_options;
  stopped = λ w. true;
  clock = λ w. w.now;
  set_stopped = λ w. w;
}

abbrev nothing : World
nothing = record { queued = []; now = 0 }

one_queue-Passes : Passes one_queue running
one_queue-Passes = record { advances = λ ch tag ms w w' e. popped_later ms w w' w.queued e }

abbrev bell : Envelope
bell = record blank_envelope {
  payload = "bell";
  content_type = "application/json";
  headers = ("a", "1") ∷ ("b", "2") ∷ [];
  reply_to = some (record { name = "" });
}

bell_headers-IsDistinct : IsDistinct bell.headers
unfolding find
bell_headers-IsDistinct = (refl, (refl, tt))

abbrev unconfirmed : SendArgs
unconfirmed = record { confirm = false }

abbrev sender : Sender (Logged World) Unit
sender = record { send_ch = none; world = (nothing, []) }

sent_bell :
    (send
      (logged one_queue)
      (seen running)
      messages
      (λ s. s)
      (record { name = "q" })
      bell
      unconfirmed
      (some sender)).0
    ≡ Status.success
unfolding send
sent_bell = refl

rabbit_send-success_example :
    (is_empty "q" ≡ false)
    × (unconfirmed.confirm ≡ false)
    × (false ≡ false)
    × ((s' : Sender (Logged World) Unit) × ((send
            (logged one_queue)
            (seen running)
            messages
            (λ s. s)
            (record { name = "q" })
            bell
            unconfirmed
            (some sender)).1
          ≡ some s')
        × (s'.world.1 ≡ calls_of_send {Ch = Unit} "q" none ++ [])
        × (is_some s'.send_ch ≡ true))
rabbit_send-success_example =
    rabbit_send-success one_queue running messages (λ s. s) (record { name = "q" }) bell unconfirmed
      sender sent_bell

abbrev patient : ReceiveArgs
patient = record { timeout = some 500; ack_mode = auto }

-- A wait that brings nothing opens a consumer, polls it three times and cancels it.
waited_calls :
    (deliver (logged one_queue) (seen running) 9 "q" patient tt (nothing, [])).1.1
    ≡ cancels "tag"
      ∷ polls "tag"
      ∷ polls "tag"
      ∷ polls "tag"
      ∷ consumes "q" "tag"
      ∷ declares "q"
      ∷ []
unfolding deliver
waited_calls = refl

deliver-Balanced_example :
    Balanced one_queue running []
      (deliver (logged one_queue) (seen running) 9 "q" patient tt (nothing, []))
deliver-Balanced_example = deliver-Balanced one_queue running 9 "q" patient tt (nothing, [])

rabbit_receive-returns_example :
    receive one_queue running 1000001 messages true
      (record { name = "q" })
      (record { timeout = some 1; ack_mode = manual })
      nothing
    ≢ none
rabbit_receive-returns_example =
    rabbit_receive-returns one_queue running one_queue-Passes 1000001 1 messages true
      (record { name = "q" }) manual nothing (omega arith)

envelope_round_trip_example :
    let back = from_basic_message messages (to_basic_message messages bell) in
    (back.payload ≡ "bell")
    × (back.content_type ≡ "application/json")
    × (back.correlation_id ≡ "")
    × (back.reply_to ≡ none)
    × ((k : String) → find k back.headers ≡ find k bell.headers)
envelope_round_trip_example =
    envelope_round_trip messages messages-keep bell bell_headers-IsDistinct

-- Stopped by another thread after half a second.
abbrev stopping : Surroundings World
stopping = record running { stopped = λ w. leb 500000000 w.now }

stopping_falls :
    (w w' : World)
    → w.now < w'.now
    → (leb 500000000 w'.now ≡ true) ⊎ (500000000 - w'.now < 500000000 - w.now)
stopping_falls w w' later = elim (Bool-cases (leb 500000000 w'.now)) [
  | inl down ↦ inl down
  | inr up ↦ inr (let early : w'.now < 500000000 = ground arith in omega arith)
]

one_queue-Stops : Stops one_queue stopping
one_queue-Stops = record {
  waits_left = λ w. 500000000 - w.now;
  falls = λ ch tag w w' e. stopping_falls w w' (popped_later 200 w w' w.queued e);
}

rabbit_receive_waits-returns_example :
    (fuel : ℕ) × (receive one_queue stopping fuel messages true
        (record { name = "q" })
        (record { timeout = none; ack_mode = auto })
        nothing
      ≢ none)
rabbit_receive_waits-returns_example =
    rabbit_receive_waits-returns one_queue stopping one_queue-Stops messages true
      (record { name = "q" }) auto nothing
