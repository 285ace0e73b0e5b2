-- ===== src/Mqss/InMemory/Receive.antt =====
-- What the whole of `receive` promises, for each timeout policy and whatever other threads do.
use mqss_integration_deploym.Base.{
  ℕ, zero, suc, String, Bool, true, false, ◌≡◌, refl, inl, inr, List, [], ◌++◌, Option, none, some,
  arith, is_empty, Bool-cases, sym, nat_beq,
}
use mqss_integration_deploym.Mqss.Status
use mqss_integration_deploym.Mqss.Status.{Status, Result, value, unexpected}
use mqss_integration_deploym.Mqss.Message.{Address, Envelope, Message}
use mqss_integration_deploym.Mqss.Transport.{ReceiveArgs}
use mqss_integration_deploym.Mqss.InMemory.{
  State, take, ready, wait, Waited, resumed, waiting, Event, finish, receive, receive_waiting,
  Received, returned,
}
use mqss_integration_deploym.Mqss.InMemory.History.{run}
use mqss_integration_deploym.Mqss.InMemory.Waiting.{others, wait-Ended, Hands, take-Hands}

-- A received envelope was at the front of its queue at a moment that other threads had brought about
-- by a first part of the schedule.
pub record Delivers (name : String) (s : State) (es : List Event) (e : Envelope)
    (end : Option State) (rest : List Event) : Type 0 where
  pub before : List Event
  pub split : es ≡ before ++ rest
  pub after : State
  pub ended : end ≡ some after
  pub hands : Hands name (run (others before) s) e after

returned-injective :
    {S : Type 0} {a b : Result (Message S)} {p q : Option State} {es fs : List Event}
    → returned a p es ≡ returned b q fs
    → (a ≡ b) × (p ≡ q) × (es ≡ fs)
returned-injective h = (cc, cc, cc)

finish-Delivers :
    {S : Type 0} (name : String) (s : State) {m : Message S} {end : Option State}
    {rest : List Event} (timed : Bool) (es before : List Event) (t : State) (r : List Event)
    → es ≡ before ++ r
    → t ≡ run (others before) s
    → finish name timed (resumed t r) ≡ returned (value m) end rest
    → Delivers name s es m.envelope end rest
finish-Delivers {S} name s {m} timed es before t r split reached h =
    let (got, ended, left) = returned-injective h in
    let after = (take {S = S} name timed t).1 in
    let taken : take {S = S} name timed t ≡ (value m, after) = λ i. (got i, after) in
    record {
      before = before;
      split = rw (← left) split;
      after = after;
      ended = sym ended;
      hands = rw (← reached) (take-Hands name timed t taken);
    }

waited-Delivers :
    {S : Type 0} (timed : Bool) (name : String) (s : State) (es : List Event) {m : Message S}
    {end : Option State} {rest : List Event} (w : Waited)
    → wait timed name s es ≡ w
    → finish name timed w ≡ returned (value m) end rest
    → Delivers name s es m.envelope end rest
waited-Delivers timed name s es (waiting t) e h = cc
waited-Delivers timed name s es (resumed t r) e h =
    let d = wait-Ended timed name s es e in
    finish-Delivers name s timed es d.before t r d.split d.reached h

-- The ways through `receive` on a transport that has its state.
module _ {ℓ} {S : Type 0} (P : Received S → Type ℓ) (src : Address) (s : State)
    (es : List Event) where
  pub waiting_cases :
      (timeout : Option ℕ)
      → (timeout ≡ none → P (finish src.name false (wait false src.name s es)))
      → (timeout ≡ some 0
          → P (returned (unexpected (Status.timeout "no message received")) (some s) es))
      → ((k : ℕ) → timeout ≡ some (suc k) → P (finish src.name true (wait true src.name s es)))
      → P (receive_waiting src.name timeout s es)
  unfolding receive_waiting
  waiting_cases none unbounded poll bounded = unbounded refl
  waiting_cases (some zero) unbounded poll bounded = poll refl
  waiting_cases (some (suc k)) unbounded poll bounded =
      let e : nat_beq (suc k) 0 ≡ false = ground arith in rw e (bounded k refl)

  pub receive_cases :
      (args : ReceiveArgs)
      → (is_empty src.name ≡ true
          → P (
              returned
                (unexpected (Status.invalid_argument "receive source name is empty"))
                (some s)
                es))
      → (is_empty src.name ≡ false
          → ready src.name s ≡ true
          → P (finish src.name false (resumed s es)))
      → (is_empty src.name ≡ false
          → ready src.name s ≡ false
          → P (receive_waiting src.name args.timeout s es))
      → P (receive src args (some s) es)
  unfolding receive
  receive_cases args unnamed at_once later = elim (Bool-cases (is_empty src.name)) [
    | inl e ↦ simp e (unnamed e)
    | inr e ↦ elim (Bool-cases (ready src.name s)) [
      | inl r ↦ simp (e, r) (at_once e r)
      | inr r ↦ simp (e, r) (later e r)
    ]
  ]

-- A receive that returns a message, at once or after a wait of any kind, returns the front of the
-- queue of its address as other threads had made it by then. The transport was not stopped then; the
-- message is taken off that queue, and every other queue is left as it was.
pub receive-Delivers :
    {S : Type 0} (src : Address) (args : ReceiveArgs) (s : State) (es : List Event) {m : Message S}
    {end : Option State} {rest : List Event}
    → receive src args (some s) es ≡ returned (value m) end rest
    → Delivers src.name s es m.envelope end rest
unfolding run
receive-Delivers src args s es {m} {end} {rest} =
    let Good = λ (r : Received _).
      r ≡ returned (value m) end rest → Delivers src.name s es m.envelope end rest in
    receive_cases Good src s es args (λ _ h. cc)
      (λ _ _ h. finish-Delivers src.name s false es [] s es refl refl h)
      (λ _ _.
        waiting_cases Good src s es args.timeout
          (λ _ h. waited-Delivers false src.name s es _ refl h) (λ _ h. cc)
          (λ _ _ h. waited-Delivers true src.name s es _ refl h))
