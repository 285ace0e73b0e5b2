-- ===== src/Mqss/Rabbit/Shutdown.antt =====
-- The polling loop without a timeout: it ends with the stop of the transport.
use mqss_integration_deploym.Base.{
  ℕ, zero, suc, ◌<◌, String, Bool, true, false, ◌≡◌, ◌≢◌, ◌⊎◌, refl, inl, inr, Option, none, some,
  arith, Bool-cases, is_empty,
}
use mqss_integration_deploym.Mqss.Message.{Address}
use mqss_integration_deploym.Mqss.Transport.{AckMode, is_auto}
use mqss_integration_deploym.Mqss.Rabbit.{Outcome, returned, threw}
use mqss_integration_deploym.Mqss.Rabbit.Envelopes.{BasicMessages}
use mqss_integration_deploym.Mqss.Rabbit.Client.{Client, Surroundings, Io, open_channel, after}
use mqss_integration_deploym.Mqss.Rabbit.Consume.{
  Polled, delivered, no_message, shut_down, timed_out, unfinished, poll_forever, poll, polled,
  consume, deliver, cancelled, on_channel, receive,
}
use mqss_integration_deploym.Mqss.Rabbit.Deadline.{IsEnded, conclude-returns}

-- The transport is stopped after a number of waits for a message that bring none.
pub record Stops {W Ch D M : Type 0} (client : Client W Ch D M) (around : Surroundings W)
    : Type 0 where
  pub waits_left : W → ℕ
  pub falls :
      (ch : Ch) (tag : String) (w w' : W)
      → client.basic_consume_message ch tag 200 w ≡ (returned none, w')
      → (around.stopped w' ≡ true) ⊎ (waits_left w' < waits_left w)

module _ {W Ch D M : Type 0} (client : Client W Ch D M) (around : Surroundings W) where
  polled-IsEnded :
      (rest : Io W (Polled D)) (o : Outcome (Option D) × W)
      → ((w : W) → o ≡ (returned none, w) → IsEnded client around (rest w))
      → IsEnded client around (after o (polled client around rest))
  polled-IsEnded rest (returned none, w) h = h w refl
  polled-IsEnded rest (returned (some d), w) h = tt
  polled-IsEnded rest (threw what, w) h = tt

  stopped-IsEnded :
      (fuel : ℕ) (ch : Ch) (tag : String) (w : W)
      → around.stopped w ≡ true
      → IsEnded client around (poll_forever client around (suc fuel) ch tag w)
  unfolding poll_forever
  stopped-IsEnded fuel ch tag w down = rw down tt

  -- One round is left when the transport has been stopped.
  poll_forever-IsEnded :
      (stops : Stops client around) (fuel : ℕ) (ch : Ch) (tag : String) (w : W)
      → stops.waits_left w < fuel
      → IsEnded client around (poll_forever client around (suc fuel) ch tag w)
  unfolding poll_forever
  poll_forever-IsEnded stops zero ch tag w h = absurd (omega arith)
  poll_forever-IsEnded stops (suc fuel) ch tag w h = elim (Bool-cases (around.stopped w)) [
    | inl down ↦ rw down tt
    | inr up ↦ rw up (
        polled-IsEnded (poll_forever client around (suc fuel) ch tag)
          (client.basic_consume_message ch tag 200 w)
          (λ w' e. elim (stops.falls ch tag w w' e) [
            | inl down ↦ stopped-IsEnded fuel ch tag w' down
            | inr fewer ↦ poll_forever-IsEnded stops fuel ch tag w' (omega arith)
          ]))
  ]

  cancelled-IsEnded :
      (ch : Ch) (tag : String) (o : Outcome (Polled D) × W)
      → IsEnded client around o
      → IsEnded client around (after o (cancelled client around ch tag))
  cancelled-IsEnded ch tag (threw what, w) h = tt
  cancelled-IsEnded ch tag (returned unfinished, w) h = h
  cancelled-IsEnded ch tag (returned timed_out, w) h = tt
  cancelled-IsEnded ch tag (returned shut_down, w) h = tt
  cancelled-IsEnded ch tag (returned no_message, w) h = tt
  cancelled-IsEnded ch tag (returned (delivered d), w) h = tt

  enough_after :
      {A : Type 0} (o : Outcome A × W) (k : ℕ → A → Io W (Polled D))
      → ((a : A) (w : W) → (fuel : ℕ) × IsEnded client around (k fuel a w))
      → (fuel : ℕ) × IsEnded client around (after o (k fuel))
  enough_after (threw what, w) k h = (0, tt)
  enough_after (returned a, w) k h = h a w

  deliver-IsEnded :
      Stops client around
      → (queue : String) (mode : AckMode) (ch : Ch) (w : W)
      → (fuel : ℕ) × IsEnded client around
          (deliver client around fuel queue (record { timeout = none; ack_mode = mode }) ch w)
  unfolding deliver consume poll
  deliver-IsEnded stops queue mode ch w = enough_after (client.declare_queue ch queue w) _ λ u w1.
      enough_after (client.basic_consume ch queue (is_auto mode) w1) _ λ tag w2. (
        suc (suc (stops.waits_left w2)),
        cancelled-IsEnded ch tag _
            (poll_forever-IsEnded stops (suc (stops.waits_left w2)) ch tag w2 (omega arith)),
      )

  -- A receive without a timeout returns, with enough fuel for its loop, on a transport that is stopped
  -- after some number of waits for a message that bring none.
  pub rabbit_receive_waits-returns :
      Stops client around
      → {T : Type 0} (messages : BasicMessages M T) (has_state : Bool) (src : Address)
        (mode : AckMode) (w : W)
      → (fuel : ℕ) × (receive client around fuel messages has_state src
            (record { timeout = none; ack_mode = mode })
            w
          ≢ none)
  unfolding receive
  rabbit_receive_waits-returns stops messages false src mode w = (
    0,
    elim (Bool-cases (is_empty src.name)) [
      | inl unnamed ↦ rw unnamed (λ e. cc)
      | inr named ↦ rw named (λ e. cc)
    ],
  )
  rabbit_receive_waits-returns stops messages true src mode w =
      let (fuel, ended) = created (open_channel client around.options w) in
      (
        fuel,
        elim (Bool-cases (is_empty src.name)) [
          | inl unnamed ↦ rw unnamed (λ e. cc)
          | inr named ↦ elim (Bool-cases (around.stopped w)) [
            | inl down ↦ rw (named, down) (λ e. cc)
            | inr up ↦ rw (named, up) ended
          ]
        ],
      )
    where
      created :
          (o : Outcome Ch × W)
          → (fuel : ℕ) × (on_channel client around fuel messages src.name
                (record { timeout = none; ack_mode = mode })
                o
              ≢ none)
      created (threw what, w') = (0, λ e. cc)
      created (returned ch, w') =
          let (fuel, ended) = deliver-IsEnded stops src.name mode ch w' in
          (fuel, conclude-returns client around messages mode ch _ ended)
