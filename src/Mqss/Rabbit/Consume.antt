-- ===== src/Mqss/Rabbit/Consume.antt =====
-- `receive` of src/transport/RabbitMqSimpleTransport.cpp. A loop runs on fuel; a receive that has not
-- ended when the fuel has is `none`.
use mqss_integration_deploym.Base.{
  ℕ, zero, suc, ◌+◌, ◌-◌, ◌*◌, ◌/◌, String, Bool, not, false, Option, none, some, is_empty, leb,
  ltb, nat_beq, if◌then◌else◌,
}
use mqss_integration_deploym.Mqss.Status
use mqss_integration_deploym.Mqss.Status.{Status, Result, value, unexpected}
use mqss_integration_deploym.Mqss.Message.{Address, Message}
use mqss_integration_deploym.Mqss.Transport.{ReceiveArgs, AckMode, is_auto}
use mqss_integration_deploym.Mqss.Rabbit.{
  Outcome, returned, threw, concat, AckState, make_message_from_delivery,
}
use mqss_integration_deploym.Mqss.Rabbit.Envelopes.{BasicMessages, from_basic_message}
use mqss_integration_deploym.Mqss.Rabbit.Client.{
  Client, Surroundings, Io, open_channel, after, pure, ignored, delivery_on, ◌>>=◌, ◌>>◌,
}

-- How a polling loop ends.
pub data Polled (D : Type 0) : Type 0 where
  delivered : D → Polled D
  no_message shut_down timed_out unfinished : Polled D

abbrev pub nanoseconds : ℕ
nanoseconds = 1000000

-- `std::min(remaining, 200ms)` of the remaining whole milliseconds.
abbrev pub wait_ms : ℕ → ℕ → ℕ
wait_ms deadline now =
    let remaining = (deadline - now) / nanoseconds in if ltb 200 remaining then 200 else remaining

module _ {W Ch D M : Type 0} (client : Client W Ch D M) (around : Surroundings W) where
  -- What a poll has brought, or the rest of the loop.
  abbrev pub polled : Io W (Polled D) → Option D → Io W (Polled D)
  polled rest none = rest
  polled rest (some d) = pure (delivered d)

  -- The loop without a timeout.
  unfoldable pub poll_forever : ℕ → Ch → String → Io W (Polled D)
  poll_forever zero ch tag w = (returned unfinished, w)
  poll_forever (suc fuel) ch tag w =
      let more =
        after (client.basic_consume_message ch tag 200 w) (polled (poll_forever fuel ch tag)) in
      if around.stopped w then (returned shut_down, w) else more

  -- The loop up to a deadline.
  unfoldable pub poll_until : ℕ → ℕ → Ch → String → Io W (Polled D)
  poll_until zero deadline ch tag w = (returned unfinished, w)
  poll_until (suc fuel) deadline ch tag w =
      let more =
        after (client.basic_consume_message ch tag (wait_ms deadline (around.clock w)) w)
          (polled (poll_until fuel deadline ch tag)) in
      if around.stopped w
      then (returned shut_down, w)
      else if leb deadline (around.clock w)
      then (returned timed_out, w)
      else more

  unfoldable pub poll : ℕ → Option ℕ → Ch → String → Io W (Polled D)
  unfolding poll_forever poll_until
  poll fuel none ch tag w = poll_forever fuel ch tag w
  poll fuel (some timeout) ch tag w =
      poll_until fuel (around.clock w + timeout * nanoseconds) ch tag w

  -- The consumer is cancelled however the loop has ended.
  abbrev pub cancelled : Ch → String → Polled D → Io W (Polled D)
  cancelled ch tag unfinished = pure unfinished
  cancelled ch tag ended = do ignored (client.basic_cancel ch tag); pure ended

  abbrev pub fetched : Option D → Polled D
  fetched none = no_message
  fetched (some d) = delivered d

  -- From the channel on: a `BasicGet` for a timeout of 0, and a consumer otherwise.
  unfoldable pub consume : ℕ → String → ReceiveArgs → Ch → Io W (Polled D)
  unfolding poll
  consume fuel queue args ch = do
    tag ← client.basic_consume ch queue (is_auto args.ack_mode)
    r ← poll fuel args.timeout ch tag
    cancelled ch tag r

  unfoldable pub get : String → ReceiveArgs → Ch → Io W (Polled D)
  get queue args ch = do d ← client.basic_get ch queue (is_auto args.ack_mode); pure (fetched d)

  abbrev pub is_poll : Option ℕ → Bool
  is_poll none = false
  is_poll (some timeout) = nat_beq timeout 0

  unfoldable pub deliver : ℕ → String → ReceiveArgs → Ch → Io W (Polled D)
  unfolding consume get
  deliver fuel queue args ch = do
    client.declare_queue ch queue
    if is_poll args.timeout then get queue args ch else consume fuel queue args ch

  abbrev pub conclude :
      {T : Type 0}
      → BasicMessages M T
      → AckMode
      → Ch
      → Outcome (Polled D) × W
      → Option (Result (Message (AckState W)) × W)
  conclude messages mode ch (threw what, w) =
      some (unexpected (Status.unavailable (concat "receive failed: " what)), w)
  conclude messages mode ch (returned unfinished, w) = none
  conclude messages mode ch (returned no_message, w) =
      some (unexpected (Status.timeout "no message received"), w)
  conclude messages mode ch (returned timed_out, w) =
      some (unexpected (Status.timeout "receive timed out"), w)
  conclude messages mode ch (returned shut_down, w) =
      some (unexpected (Status.unavailable "transport shut down"), w)
  conclude messages mode ch (returned (delivered d), w) = some (
    value (
        make_message_from_delivery (delivery_on client ch d)
          (from_basic_message messages (client.message d)) mode),
    w,
  )

  abbrev pub on_channel :
      ℕ
      → {T : Type 0} → BasicMessages M T
      → String
      → ReceiveArgs
      → Outcome Ch × W
      → Option (Result (Message (AckState W)) × W)
  on_channel fuel messages queue args (threw what, w) =
      some (unexpected (Status.unavailable (concat "receive failed: " what)), w)
  on_channel fuel messages queue args (returned ch, w) =
      conclude messages args.ack_mode ch (deliver fuel queue args ch w)

  -- `receive`; `has_state` tells whether the state is there.
  unfoldable pub receive :
      ℕ
      → {T : Type 0} → BasicMessages M T
      → (has_state : Bool) → Address
      → ReceiveArgs
      → W
      → Option (Result (Message (AckState W)) × W)
  unfolding deliver make_message_from_delivery from_basic_message
  receive fuel messages has_state src args w =
      if is_empty src.name
      then some (unexpected (Status.invalid_argument "receive source name is empty"), w)
      else if not has_state
      then some (unexpected (Status.unavailable "transport not initialized"), w)
      else if around.stopped w
      then some (unexpected (Status.unavailable "transport shut down"), w)
      else on_channel fuel messages src.name args (open_channel client around.options w)
