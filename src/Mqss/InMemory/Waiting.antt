-- ===== src/Mqss/InMemory/Waiting.antt =====
-- Blocking receives: what a wait hands out, when it ends, and what ends it.
use mqss_integration_deploym.Base.{
  String, Bool, true, false, ◌≡◌, ◌≢◌, refl, ◌⊎◌, inl, inr, List, [], ◌∷◌, ◌++◌, arith, Bool-cases,
  beq_refl, eq_iff, string_eq,
}
use mqss_integration_deploym.Mqss.Status.{value}
use mqss_integration_deploym.Mqss.Message.{Envelope, Message}
use mqss_integration_deploym.Mqss.InMemory.{
  State, queue_at, take, perform, Other, shuts, ready, wait, resumed, waiting, Event, other, woken,
  elapsed, stop,
}
use mqss_integration_deploym.Mqss.InMemory.Laws.{take_cases, queue_at-pop_front}
use mqss_integration_deploym.Mqss.InMemory.History.{run, run_stopped}

-- What other threads did in a part of a schedule.
abbrev pub others : List Event → List Other
others [] = []
others (other o ∷ es) = o ∷ others es
others (woken ∷ es) = others es
others (elapsed ∷ es) = others es

-- How a wait may end: after a first part of the schedule, in the state that the other threads made by
-- then, with the condition true or, where the wait has a timeout, possibly without.
pub record Ended (timed : Bool) (name : String) (s : State) (es : List Event) (t : State)
    (rest : List Event) : Type 0 where
  pub before : List Event
  pub split : es ≡ before ++ rest
  pub reached : t ≡ run (others before) s
  pub cause : (ready name t ≡ true) ⊎ (timed ≡ true)

Ended-cons_other :
    {timed : Bool} {name : String} {s t : State} {es rest : List Event} (o : Other)
    → Ended timed name (perform o s) es t rest
    → Ended timed name s (other o ∷ es) t rest
unfolding run
Ended-cons_other o h = record {
  before = other o ∷ h.before;
  split = rw h.split;
  reached = h.reached;
  cause = h.cause;
}

Ended-cons_woken :
    {timed : Bool} {name : String} {s t : State} {es rest : List Event}
    → Ended timed name s es t rest
    → Ended timed name s (woken ∷ es) t rest
Ended-cons_woken h = record {
  before = woken ∷ h.before;
  split = rw h.split;
  reached = h.reached;
  cause = h.cause;
}

Ended-cons_elapsed :
    {timed : Bool} {name : String} {s t : State} {es rest : List Event}
    → Ended timed name s es t rest
    → Ended timed name s (elapsed ∷ es) t rest
Ended-cons_elapsed h = record {
  before = elapsed ∷ h.before;
  split = rw h.split;
  reached = h.reached;
  cause = h.cause;
}

Ended-woken :
    {timed : Bool} {name : String} {s t : State} {es rest : List Event}
    → resumed s es ≡ resumed t rest
    → ready name s ≡ true
    → Ended timed name s (woken ∷ es) t rest
unfolding run
Ended-woken h r = record {
  before = woken ∷ [];
  split = ground arith;
  reached = ground arith;
  cause = inl (ground arith);
}

Ended-elapsed :
    {name : String} {s t : State} {es rest : List Event}
    → resumed s es ≡ resumed t rest
    → Ended true name s (elapsed ∷ es) t rest
unfolding run
Ended-elapsed h = record {
  before = elapsed ∷ [];
  split = ground arith;
  reached = ground arith;
  cause = inr refl;
}

pub wait-Ended :
    (timed : Bool) (name : String) (s : State) (es : List Event) {t : State} {rest : List Event}
    → wait timed name s es ≡ resumed t rest
    → Ended timed name s es t rest
unfolding wait
wait-Ended timed name s [] h = cc
wait-Ended timed name s (other o ∷ es) h =
    Ended-cons_other o (wait-Ended timed name (perform o s) es h)
wait-Ended timed name s (woken ∷ es) h = elim (Bool-cases (ready name s)) [
  | inl r ↦ Ended-woken (rw r at h) r
  | inr r ↦ Ended-cons_woken (wait-Ended timed name s es (rw r at h))
]
wait-Ended true name s (elapsed ∷ es) h = Ended-elapsed h
wait-Ended false name s (elapsed ∷ es) h = Ended-cons_elapsed (wait-Ended false name s es h)

-- A message that `take` hands out was the front of its queue, and only that queue changes.
pub record Hands (name : String) (t : State) (e : Envelope) (after : State) : Type 0 where
  pub running : t.stopped ≡ false
  pub front : queue_at name t.queues ≡ e ∷ queue_at name after.queues
  pub elsewhere : (n : String) → n ≢ name → queue_at n after.queues ≡ queue_at n t.queues

pub take-Hands :
    {S : Type 0} (name : String) (timed : Bool) (t : State) {m : Message S} {after : State}
    → take name timed t ≡ (value m, after)
    → Hands name t m.envelope after
take-Hands name timed t {m} {after} =
    take_cases (λ r. r ≡ (value m, after) → Hands name t m.envelope after) name timed t (λ _ h. cc)
      (λ _ _ h. cc)
      (λ e rest run q h. record {
        running = run;
        front = ground (arith, queue_at-pop_front name e rest t name, beq_refl name);
        elsewhere = λ n ne. ground (arith, queue_at-pop_front name e rest t n, eq_iff name n);
      })

-- A wait with a timeout ends at the latest when the timeout has passed.
pub wait_elapsed :
    (name : String) (s : State) (before after : List Event) (t : State)
    → wait true name s (before ++ elapsed ∷ after) ≢ waiting t
unfolding wait
wait_elapsed name s [] after t h = cc
wait_elapsed name s (other o ∷ es) after t h = wait_elapsed name (perform o s) es after t h
wait_elapsed name s (woken ∷ es) after t h = ground (arith, wait_elapsed name s es after t)
wait_elapsed name s (elapsed ∷ es) after t h = cc

-- Once the transport is stopped, the next wake-up ends a wait.
wait_stopped :
    (timed : Bool) (name : String) (s : State) (before after : List Event) (t : State)
    → s.stopped ≡ true
    → wait timed name s (before ++ woken ∷ after) ≢ waiting t
unfolding wait ready
wait_stopped timed name s [] after t d h = ground arith
wait_stopped timed name s (other o ∷ es) after t d h =
    wait_stopped timed name (perform o s) es after t (unfold run in run_stopped (o ∷ []) s d) h
wait_stopped timed name s (woken ∷ es) after t d h = ground arith
wait_stopped true name s (elapsed ∷ es) after t d h = cc
wait_stopped false name s (elapsed ∷ es) after t d h = wait_stopped false name s es after t d h

pub wait_shuts :
    (timed : Bool) (name : String) (s : State) (before between after : List Event) (t : State)
    → wait timed name s (before ++ other shuts ∷ (between ++ woken ∷ after)) ≢ waiting t
unfolding wait perform stop
wait_shuts timed name s [] between after t h =
    wait_stopped timed name (stop s) between after t refl h
wait_shuts timed name s (other o ∷ es) between after t h =
    wait_shuts timed name (perform o s) es between after t h
wait_shuts timed name s (woken ∷ es) between after t h =
    ground (arith, wait_shuts timed name s es between after t)
wait_shuts true name s (elapsed ∷ es) between after t h = cc
wait_shuts false name s (elapsed ∷ es) between after t h =
    wait_shuts false name s es between after t h
