-- ===== src/Mqss/Rabbit/Consumers.antt =====
-- Every consumer that a receive opens is cancelled.
use mqss_integration_deploym.Base.{
  ℕ, zero, suc, String, ◌≡◌, refl, ◌∙◌, ap, inl, inr, List, [], ◌∷◌, ◌++◌, Option, none, some,
  Bool-cases, if◌then◌else◌, leb,
}
use mqss_integration_deploym.Mqss.Transport.{ReceiveArgs}
use mqss_integration_deploym.Mqss.Rabbit.{Outcome, returned, threw}
use mqss_integration_deploym.Mqss.Rabbit.Client.{Client, Surroundings, Io, after}
use mqss_integration_deploym.Mqss.Rabbit.Consume.{
  Polled, delivered, no_message, shut_down, timed_out, unfinished, poll_forever, poll_until, poll,
  polled, consume, get, deliver, cancelled, fetched, wait_ms, is_poll,
}
use mqss_integration_deploym.Mqss.Rabbit.Trace.{
  Action, creates, acknowledges, rejects, declares, publishes, gets, consumes, refused, consumption,
  cancels, polls, Logged, logged, seen,
}

-- The tags of the consumers that a log opens, and of those that it cancels.
abbrev pub opened_consumers : List Action → List String
opened_consumers [] = []
opened_consumers (consumes queue tag ∷ log) = tag ∷ opened_consumers log
opened_consumers (refused queue ∷ log) = opened_consumers log
opened_consumers (creates ∷ log) = opened_consumers log
opened_consumers (acknowledges ∷ log) = opened_consumers log
opened_consumers (rejects ∷ log) = opened_consumers log
opened_consumers (declares queue ∷ log) = opened_consumers log
opened_consumers (publishes queue ∷ log) = opened_consumers log
opened_consumers (gets queue ∷ log) = opened_consumers log
opened_consumers (cancels tag ∷ log) = opened_consumers log
opened_consumers (polls tag ∷ log) = opened_consumers log

abbrev pub cancelled_consumers : List Action → List String
cancelled_consumers [] = []
cancelled_consumers (cancels tag ∷ log) = tag ∷ cancelled_consumers log
cancelled_consumers (refused queue ∷ log) = cancelled_consumers log
cancelled_consumers (creates ∷ log) = cancelled_consumers log
cancelled_consumers (acknowledges ∷ log) = cancelled_consumers log
cancelled_consumers (rejects ∷ log) = cancelled_consumers log
cancelled_consumers (declares queue ∷ log) = cancelled_consumers log
cancelled_consumers (publishes queue ∷ log) = cancelled_consumers log
cancelled_consumers (gets queue ∷ log) = cancelled_consumers log
cancelled_consumers (consumes queue tag ∷ log) = cancelled_consumers log
cancelled_consumers (polls tag ∷ log) = cancelled_consumers log

-- The log has the same consumers, opened and cancelled.
abbrev Quiet : List Action → List Action → Type 0
Quiet log log' =
    (opened_consumers log' ≡ opened_consumers log)
    × (cancelled_consumers log' ≡ cancelled_consumers log)

-- From one log to the other the consumers that are opened are those that are cancelled, by their tags.
abbrev pub CancelsOpened : List Action → List Action → Type 0
CancelsOpened log log' =
    (tags : List String) × (opened_consumers log' ≡ tags ++ opened_consumers log)
    × (cancelled_consumers log' ≡ tags ++ cancelled_consumers log)

module _ {W Ch D M : Type 0} (client : Client W Ch D M) (around : Surroundings W) where
  polled-Quiet :
      (rest : Io (Logged W) (Polled D)) (log : List Action)
      → ((s : Logged W) → Quiet s.1 (rest s).1.1)
      → (o : Outcome (Option D) × Logged W) → Quiet log o.1.1
      → Quiet log (after o (polled (logged client) (seen around) rest)).1.1
  polled-Quiet rest log h (returned none, s) q = ((h s).0 ∙ q.0, (h s).1 ∙ q.1)
  polled-Quiet rest log h (returned (some d), s) q = q
  polled-Quiet rest log h (threw what, s) q = q

  poll_forever-Quiet :
      (fuel : ℕ) (ch : Ch) (tag : String) (s : Logged W)
      → Quiet s.1 (poll_forever (logged client) (seen around) fuel ch tag s).1.1
  unfolding poll_forever
  poll_forever-Quiet zero ch tag s = (refl, refl)
  poll_forever-Quiet (suc fuel) ch tag s = elim (Bool-cases (around.stopped s.0)) [
    | inl h ↦ rw h (refl, refl)
    | inr h ↦ rw h (
        polled-Quiet (poll_forever (logged client) (seen around) fuel ch tag) s.1
          (poll_forever-Quiet fuel ch tag) ((logged client).basic_consume_message ch tag 200 s)
          (refl, refl))
  ]

  poll_until-Quiet :
      (fuel deadline : ℕ) (ch : Ch) (tag : String) (s : Logged W)
      → Quiet s.1 (poll_until (logged client) (seen around) fuel deadline ch tag s).1.1
  unfolding poll_until
  poll_until-Quiet zero deadline ch tag s = (refl, refl)
  poll_until-Quiet (suc fuel) deadline ch tag s = elim (Bool-cases (around.stopped s.0)) [
    | inl h ↦ rw h (refl, refl)
    | inr h ↦ elim (Bool-cases (leb deadline (around.clock s.0))) [
      | inl late ↦ rw (h, late) (refl, refl)
      | inr early ↦
          rw (h, early)
            (polled-Quiet (poll_until (logged client) (seen around) fuel deadline ch tag) s.1
              (poll_until-Quiet fuel deadline ch tag)
              ((logged client).basic_consume_message ch tag (wait_ms deadline (around.clock s.0)) s)
              (refl, refl))
    ]
  ]

  poll-Quiet :
      (fuel : ℕ) (timeout : Option ℕ) (ch : Ch) (tag : String) (s : Logged W)
      → Quiet s.1 (poll (logged client) (seen around) fuel timeout ch tag s).1.1
  unfolding poll
  poll-Quiet fuel none ch tag s = poll_forever-Quiet fuel ch tag s
  poll-Quiet fuel (some timeout) ch tag s = poll_until-Quiet fuel _ ch tag s

  -- Between two logs the consumers that are opened are cancelled, unless the client has thrown or the
  -- fuel has run out.
  abbrev pub Balanced : List Action → Outcome (Polled D) × Logged W → Type 0
  Balanced log (threw what, s) = Unit {0}
  Balanced log (returned unfinished, s) = Unit {0}
  Balanced log (returned (delivered d), s) = CancelsOpened log s.1
  Balanced log (returned no_message, s) = CancelsOpened log s.1
  Balanced log (returned shut_down, s) = CancelsOpened log s.1
  Balanced log (returned timed_out, s) = CancelsOpened log s.1

  cancelled-Balanced :
      (log : List Action) (ch : Ch) (tag : String) (r : Polled D) (s : Logged W)
      → opened_consumers s.1 ≡ tag ∷ opened_consumers log
      → cancelled_consumers s.1 ≡ cancelled_consumers log
      → Balanced log (cancelled (logged client) (seen around) ch tag r s)
  cancelled-Balanced log ch tag (delivered d) s o c = (tag ∷ [], o, ap (λ l. tag ∷ l) c)
  cancelled-Balanced log ch tag no_message s o c = (tag ∷ [], o, ap (λ l. tag ∷ l) c)
  cancelled-Balanced log ch tag shut_down s o c = (tag ∷ [], o, ap (λ l. tag ∷ l) c)
  cancelled-Balanced log ch tag timed_out s o c = (tag ∷ [], o, ap (λ l. tag ∷ l) c)
  cancelled-Balanced log ch tag unfinished s o c = tt

  -- What a call of basic_consume leaves in the log.
  abbrev Opens : List Action → Outcome String × Logged W → Type 0
  Opens log (threw what, s) = Quiet log s.1
  Opens log (returned tag, s) =
      (opened_consumers s.1 ≡ tag ∷ opened_consumers log)
      × (cancelled_consumers s.1 ≡ cancelled_consumers log)

  consume-Balanced :
      (log : List Action) (fuel : ℕ) (queue : String) (args : ReceiveArgs) (ch : Ch)
      (o : Outcome String × Logged W)
      → Opens log o
      → Balanced log (
          after o (λ tag s.
            after
              (poll (logged client) (seen around) fuel args.timeout ch tag s)
              (cancelled (logged client) (seen around) ch tag)))
  consume-Balanced log fuel queue args ch (threw what, s) h = tt
  consume-Balanced log fuel queue args ch (returned tag, s) (h, c) =
      ended (poll (logged client) (seen around) fuel args.timeout ch tag s)
        (poll-Quiet fuel args.timeout ch tag s)
    where
      ended :
          (r : Outcome (Polled D) × Logged W)
          → Quiet s.1 r.1.1
          → Balanced log (after r (cancelled (logged client) (seen around) ch tag))
      ended (threw what, s') q = tt
      ended (returned r, s') q = cancelled-Balanced log ch tag r s' (q.0 ∙ h) (q.1 ∙ c)

  opens :
      (log : List Action) (queue : String) (o : Outcome String × W) (log' : List Action)
      → Quiet log log'
      → Opens log (o.0, (o.1, consumption queue o.0 ∷ log'))
  opens log queue (threw what, w) log' q = q
  opens log queue (returned tag, w) log' q = (ap (λ l. tag ∷ l) q.0, q.1)

  get-Balanced :
      (log : List Action) (o : Outcome (Option D) × Logged W)
      → Quiet log o.1.1
      → Balanced log (after o (λ d s. (returned (fetched (logged client) (seen around) d), s)))
  get-Balanced log (threw what, s) q = tt
  get-Balanced log (returned none, s) q = ([], q.0, q.1)
  get-Balanced log (returned (some d), s) q = ([], q.0, q.1)

  declared-Balanced :
      (log : List Action) (fuel : ℕ) (queue : String) (args : ReceiveArgs) (ch : Ch)
      (o : Outcome (Unit {0}) × Logged W)
      → Quiet log o.1.1
      → Balanced log (
          after o (λ _.
            if is_poll (logged client) (seen around) args.timeout
            then get (logged client) (seen around) queue args ch
            else consume (logged client) (seen around) fuel queue args ch))
  unfolding get consume
  declared-Balanced log fuel queue args ch (threw what, s) q = tt
  declared-Balanced log fuel queue args ch (returned u, s) q =
      elim (Bool-cases (is_poll (logged client) (seen around) args.timeout)) [
        | inl p ↦ rw p (get-Balanced log _ q)
        | inr p ↦ rw p (consume-Balanced log fuel queue args ch _ (opens log queue _ s.1 q))
      ]

  -- A receive cancels every consumer that it has opened, by its tag and no other, before it ends with a message,
  -- with a timeout or with the stop of the transport, whatever the client does, unless a call of the
  -- client throws or the fuel runs out.
  pub deliver-Balanced :
      (fuel : ℕ) (queue : String) (args : ReceiveArgs) (ch : Ch) (s : Logged W)
      → Balanced s.1 (deliver (logged client) (seen around) fuel queue args ch s)
  unfolding deliver
  deliver-Balanced fuel queue args ch s =
      declared-Balanced s.1 fuel queue args ch ((logged client).declare_queue ch queue s)
        (refl, refl)
