-- ===== src/Mqss/InMemory/Liveness.antt =====
-- When a receive returns, and with what errors.
use mqss_integration_deploym.Base.{
  ℕ, String, Bool, true, false, ◌≡◌, ◌≢◌, refl, ◌⊎◌, inl, inr, List, ◌∷◌, ◌++◌, none, some, arith,
}
use mqss_integration_deploym.Mqss.Status
use mqss_integration_deploym.Mqss.Status.{Status, Result, value, unexpected}
use mqss_integration_deploym.Mqss.Message.{Address}
use mqss_integration_deploym.Mqss.Transport.{ReceiveArgs, AckMode}
use mqss_integration_deploym.Mqss.InMemory.{
  State, shuts, ready, wait, Waited, resumed, waiting, Event, other, woken, elapsed, finish,
  receive, Received, returned, blocked,
}
use mqss_integration_deploym.Mqss.InMemory.Laws.{take_cases}
use mqss_integration_deploym.Mqss.InMemory.Receive.{receive_cases, waiting_cases}
use mqss_integration_deploym.Mqss.InMemory.Waiting.{wait-Ended, wait_elapsed, wait_shuts}

-- What a receive without a timeout may end with: no name, the stop of the transport, or a message.
abbrev pub NoTimeout : {S : Type 0} → Received S → Type 0
NoTimeout (blocked t) = Unit {0}
NoTimeout (returned (value m) end rest) = Unit {0}
NoTimeout (returned (unexpected status) end rest) =
    (status ≡ Status.invalid_argument "receive source name is empty")
    ⊎ ((status ≡ Status.unavailable "transport shut down")
        × (t : State) × (end ≡ some t)
        × (t.stopped ≡ true))

finish-NoTimeout :
    (S : Type 0) (name : String) (t : State) (rest : List Event)
    → ready name t ≡ true
    → NoTimeout {S = S} (finish name false (resumed t rest))
unfolding ready
finish-NoTimeout S name t rest r =
    take_cases (λ g. NoTimeout {S = S} (returned g.0 (some g.1) rest)) name false t
      (λ h. inr (refl, t, refl, h)) (λ h q. ground arith) (λ _ _ _ _. tt)

waited-NoTimeout :
    (S : Type 0) (name : String) (s : State) (es : List Event) (w : Waited)
    → wait false name s es ≡ w
    → NoTimeout {S = S} (finish name false w)
waited-NoTimeout S name s es (waiting t) e = tt
waited-NoTimeout S name s es (resumed t rest) e =
    let d = wait-Ended false name s es e in finish-NoTimeout S name t rest (ground (arith, d.cause))

-- A receive without a timeout never reports one: if it returns without a message, then its source
-- name is empty or the transport has been stopped.
pub receive-NoTimeout :
    (S : Type 0) (src : Address) (mode : AckMode) (s : State) (es : List Event)
    → NoTimeout {S = S} (receive src (record { timeout = none; ack_mode = mode }) (some s) es)
receive-NoTimeout S src mode s es =
    let Good = λ (r : Received S). NoTimeout r in
    receive_cases Good src s es _ (λ _. inl refl) (λ _ r. finish-NoTimeout S src.name s es r)
      (λ _ _.
        waiting_cases Good src s es none (λ _. waited-NoTimeout S src.name s es _ refl) (λ h. cc)
          (λ _ h. cc))

-- A call that returns, whatever its result.
abbrev pub Returns : {S : Type 0} → Received S → Type 0
Returns (blocked t) = ⊥
Returns (returned result end rest) = Unit {0}

waited-Returns :
    (S : Type 0) (name : String) (timed : Bool) (w : Waited)
    → ((t : State) → w ≢ waiting t)
    → Returns {S = S} (finish name timed w)
waited-Returns S name timed (waiting t) h = h t refl
waited-Returns S name timed (resumed t rest) h = tt

-- A receive with a timeout returns on every schedule on which its timeout passes, whatever else
-- happens.
pub receive_timed-Returns :
    (S : Type 0) (src : Address) (timeout : ℕ) (mode : AckMode) (s : State)
    (before after : List Event)
    → Returns {S = S} (
        receive src
          (record { timeout = some timeout; ack_mode = mode })
          (some s)
          (before ++ elapsed ∷ after))
receive_timed-Returns S src timeout mode s before after =
    let Good = λ (r : Received S). Returns r in
    receive_cases Good src s _ _ (λ _. tt) (λ _ _. tt)
      (λ _ _.
        waiting_cases Good src s _ (some timeout) (λ h. cc) (λ _. tt)
          (λ _ _. waited-Returns S src.name true _ (wait_elapsed src.name s before after)))

-- Stopping the transport ends every receive, with or without a timeout, at the next wake-up after
-- the stop.
pub receive_shuts-Returns :
    (S : Type 0) (src : Address) (args : ReceiveArgs) (s : State)
    (before between after : List Event)
    → Returns {S = S}
        (receive src args (some s) (before ++ other shuts ∷ (between ++ woken ∷ after)))
receive_shuts-Returns S src args s before between after =
    let Good = λ (r : Received S). Returns r in
    receive_cases Good src s _ args (λ _. tt) (λ _ _. tt)
      (λ _ _.
        waiting_cases Good src s _ args.timeout
          (λ _.
            waited-Returns S src.name false _ (wait_shuts false src.name s before between after))
          (λ _. tt)
          (λ _ _.
            waited-Returns S src.name true _ (wait_shuts true src.name s before between after)))
