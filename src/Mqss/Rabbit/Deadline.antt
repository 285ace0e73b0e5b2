-- ===== src/Mqss/Rabbit/Deadline.antt =====
-- The polling loop with a timeout: it ends, and not before its time.
use mqss_integration_deploym.Base.{
  ℕ, zero, suc, ◌+◌, ◌-◌, ◌*◌, ◌≤◌, ◌<◌, String, Bool, true, false, ◌≡◌, ◌≢◌, refl, inl, inr,
  Option, none, some, arith, Bool-cases, leb, is_empty,
}
use mqss_integration_deploym.Mqss.Message.{Address}
use mqss_integration_deploym.Mqss.Transport.{AckMode, is_auto}
use mqss_integration_deploym.Mqss.Rabbit.{Outcome, returned, threw}
use mqss_integration_deploym.Mqss.Rabbit.Envelopes.{BasicMessages}
use mqss_integration_deploym.Mqss.Rabbit.Client.{Client, Surroundings, Io, open_channel, after}
use mqss_integration_deploym.Mqss.Rabbit.Consume.{
  Polled, delivered, no_message, shut_down, timed_out, unfinished, poll_until, poll, polled,
  consume, get, deliver, cancelled, fetched, wait_ms, is_poll, nanoseconds, conclude, on_channel,
  receive,
}

-- A wait for a message that brings none has taken some time.
pub record Passes {W Ch D M : Type 0} (client : Client W Ch D M) (around : Surroundings W)
    : Type 0 where
  pub advances :
      (ch : Ch) (tag : String) (ms : ℕ) (w w' : W)
      → client.basic_consume_message ch tag ms w ≡ (returned none, w')
      → around.clock w < around.clock w'

module _ {W Ch D M : Type 0} (client : Client W Ch D M) (around : Surroundings W) where
  -- The loop has ended, with a timeout only at the deadline or later.
  abbrev pub Ends : ℕ → Outcome (Polled D) × W → Type 0
  Ends deadline (threw what, w) = Unit {0}
  Ends deadline (returned unfinished, w) = ⊥
  Ends deadline (returned timed_out, w) = deadline ≤ around.clock w
  Ends deadline (returned shut_down, w) = around.stopped w ≡ true
  Ends deadline (returned no_message, w) = ⊥
  Ends deadline (returned (delivered d), w) = Unit {0}

  polled-Ends :
      (deadline : ℕ) (rest : Io W (Polled D)) (o : Outcome (Option D) × W)
      → ((w : W) → o ≡ (returned none, w) → Ends deadline (rest w))
      → Ends deadline (after o (polled client around rest))
  polled-Ends deadline rest (returned none, w) h = h w refl
  polled-Ends deadline rest (returned (some d), w) h = tt
  polled-Ends deadline rest (threw what, w) h = tt

  -- With a client whose waits take time, the loop up to a deadline ends within as many rounds as there
  -- are nanoseconds to the deadline, and one more; and it ends with a timeout only when the deadline
  -- has passed, and as shut down only when the transport is stopped.
  poll_until-Ends :
      Passes client around
      → (fuel deadline : ℕ) (ch : Ch) (tag : String) (w : W) → deadline - around.clock w < fuel
      → Ends deadline (poll_until client around fuel deadline ch tag w)
  unfolding poll_until
  poll_until-Ends p zero deadline ch tag w h = absurd (omega arith)
  poll_until-Ends p (suc fuel) deadline ch tag w h = elim (Bool-cases (around.stopped w)) [
    | inl down ↦ rw down down
    | inr up ↦ elim (Bool-cases (leb deadline (around.clock w))) [
      | inl late ↦ rw (up, late) (ground arith)
      | inr early ↦
          let ms = wait_ms deadline (around.clock w) in
          rw (up, early)
            (polled-Ends deadline (poll_until client around fuel deadline ch tag)
              (client.basic_consume_message ch tag ms w)
              (λ w' e. poll_until-Ends p fuel deadline ch tag w' (
                let later = p.advances ch tag ms w w' e in
                let ahead : around.clock w < deadline = ground arith in omega arith)))
    ]
  ]

  poll-Ends :
      Passes client around
      → (fuel timeout : ℕ) (ch : Ch) (tag : String) (w : W) → timeout * nanoseconds < fuel
      → Ends
          (around.clock w + timeout * nanoseconds)
          (poll client around fuel (some timeout) ch tag w)
  unfolding poll
  poll-Ends p fuel timeout ch tag w h = poll_until-Ends p fuel _ ch tag w (omega arith)

  -- A result of any kind.
  abbrev pub IsEnded : Outcome (Polled D) × W → Type 0
  IsEnded (threw what, w) = Unit {0}
  IsEnded (returned unfinished, w) = ⊥
  IsEnded (returned timed_out, w) = Unit {0}
  IsEnded (returned shut_down, w) = Unit {0}
  IsEnded (returned no_message, w) = Unit {0}
  IsEnded (returned (delivered d), w) = Unit {0}

  cancelled-IsEnded :
      (deadline : ℕ) (ch : Ch) (tag : String) (o : Outcome (Polled D) × W)
      → Ends deadline o
      → IsEnded (after o (cancelled client around ch tag))
  cancelled-IsEnded deadline ch tag (threw what, w) h = tt
  cancelled-IsEnded deadline ch tag (returned unfinished, w) h = h
  cancelled-IsEnded deadline ch tag (returned timed_out, w) h = tt
  cancelled-IsEnded deadline ch tag (returned shut_down, w) h = tt
  cancelled-IsEnded deadline ch tag (returned no_message, w) h = tt
  cancelled-IsEnded deadline ch tag (returned (delivered d), w) h = tt

  after-IsEnded :
      {A : Type 0} (o : Outcome A × W) (k : A → Io W (Polled D))
      → ((a : A) (w : W) → IsEnded (k a w))
      → IsEnded (after o k)
  after-IsEnded (threw what, w) k h = tt
  after-IsEnded (returned a, w) k h = h a w

  fetched-IsEnded : (d : Option D) (w : W) → IsEnded (returned (fetched client around d), w)
  fetched-IsEnded none w = tt
  fetched-IsEnded (some d) w = tt

  deliver-IsEnded :
      Passes client around
      → (fuel timeout : ℕ) (queue : String) (mode : AckMode) (ch : Ch) (w : W)
      → timeout * nanoseconds < fuel
      → IsEnded (
          deliver client around fuel queue
            (record { timeout = some timeout; ack_mode = mode })
            ch
            w)
  unfolding deliver get consume
  deliver-IsEnded p fuel timeout queue mode ch w h =
      after-IsEnded (client.declare_queue ch queue w) _ λ u w1.
        elim (Bool-cases (is_poll client around (some timeout))) [
          | inl now ↦
              rw now (after-IsEnded (client.basic_get ch queue (is_auto mode) w1) _ fetched-IsEnded)
          | inr later ↦ rw later (
              after-IsEnded (client.basic_consume ch queue (is_auto mode) w1) _ λ tag w2.
                cancelled-IsEnded (around.clock w2 + timeout * nanoseconds) ch tag _
                  (poll-Ends p fuel timeout ch tag w2 h))
        ]

  pub conclude-returns :
      {T : Type 0} (messages : BasicMessages M T) (mode : AckMode) (ch : Ch)
      (o : Outcome (Polled D) × W)
      → IsEnded o
      → conclude client around messages mode ch o ≢ none
  conclude-returns messages mode ch (threw what, w) h = λ e. cc
  conclude-returns messages mode ch (returned unfinished, w) h = absurd h
  conclude-returns messages mode ch (returned timed_out, w) h = λ e. cc
  conclude-returns messages mode ch (returned shut_down, w) h = λ e. cc
  conclude-returns messages mode ch (returned no_message, w) h = λ e. cc
  conclude-returns messages mode ch (returned (delivered d), w) h = λ e. cc

  -- With a client whose waits take time, every receive with a timeout returns: fuel of more rounds
  -- than the timeout has nanoseconds is enough, whatever the broker and other threads do.
  pub rabbit_receive-returns :
      Passes client around
      → (fuel timeout : ℕ) {T : Type 0} (messages : BasicMessages M T) (has_state : Bool)
        (src : Address) (mode : AckMode) (w : W)
      → timeout * nanoseconds < fuel
      → receive client around fuel messages has_state src
          (record { timeout = some timeout; ack_mode = mode })
          w
        ≢ none
  unfolding receive
  rabbit_receive-returns p fuel timeout messages false src mode w h =
      elim (Bool-cases (is_empty src.name)) [
        | inl unnamed ↦ rw unnamed (λ e. cc)
        | inr named ↦ rw named (λ e. cc)
      ]
  rabbit_receive-returns p fuel timeout messages true src mode w h =
      elim (Bool-cases (is_empty src.name)) [
        | inl unnamed ↦ rw unnamed (λ e. cc)
        | inr named ↦ elim (Bool-cases (around.stopped w)) [
          | inl down ↦ rw (named, down) (λ e. cc)
          | inr up ↦ rw (named, up) (created (open_channel client around.options w))
        ]
      ]
    where
      created :
          (o : Outcome Ch × W)
          → on_channel client around fuel messages src.name
              (record { timeout = some timeout; ack_mode = mode })
              o
            ≢ none
      created (threw what, w') = λ e. cc
      created (returned ch, w') =
          conclude-returns messages mode ch _ (deliver-IsEnded p fuel timeout src.name mode ch w' h)
