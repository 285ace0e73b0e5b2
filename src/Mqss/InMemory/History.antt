-- ===== src/Mqss/InMemory/History.antt =====
-- Order of delivery over a whole history of what threads do under the mutex.
use mqss_integration_deploym.Base.{
  String, true, false, ◌≡◌, refl, sym, ap, ◌∙◌, List, [], ◌∷◌, ◌++◌, ◌==◌, string_eq, arith, eq_iff,
  if◌then◌else◌, Bool-cases, append_assoc, append-nil, inl, inr,
}
use mqss_integration_deploym.Mqss.Status.{Result, value, unexpected, is_ok}
use mqss_integration_deploym.Mqss.Message.{Address, Envelope, Message}
use mqss_integration_deploym.Mqss.InMemory.{
  State, queue_at, push_back, take, stop, perform, Other, sends, takes, shuts,
}
use mqss_integration_deploym.Mqss.InMemory.Laws.{
  queue_at-push_back, queue_at-pop_front, take_cases, IsValid, perform-IsValid,
}

unfoldable pub run : List Other → State → State
run [] s = s
run (o ∷ os) s = run os (perform o s)

-- The envelopes for `name` that a send in the history was told were accepted, in order.
abbrev accepted_now : String → Other → State → List Envelope
accepted_now name (sends dest e) s =
    if dest.name == name then (if is_ok (push_back dest e s).0 then e ∷ [] else []) else []
accepted_now name (takes _) s = []
accepted_now name shuts s = []

-- What a receive in the history handed out from the queue of `name`, in order.
abbrev result_envelopes : Result (Message (Unit {0})) → List Envelope
result_envelopes (value m) = m.envelope ∷ []
result_envelopes (unexpected _) = []

abbrev delivered_now : String → Other → State → List Envelope
delivered_now name (sends _ _) s = []
delivered_now name (takes src) s = if src == name then result_envelopes (take src false s).0 else []
delivered_now name shuts s = []

unfoldable pub accepted : String → List Other → State → List Envelope
accepted name [] s = []
accepted name (o ∷ os) s = accepted_now name o s ++ accepted name os (perform o s)

unfoldable pub delivered : String → List Other → State → List Envelope
delivered name [] s = []
delivered name (o ∷ os) s = delivered_now name o s ++ delivered name os (perform o s)

send-conserves :
    (name : String) (dest : Address) (e : Envelope) (s : State)
    → queue_at name s.queues ++ accepted_now name (sends dest e) s
      ≡ queue_at name (push_back dest e s).1.queues
unfolding push_back
send-conserves name dest e s = elim (Bool-cases s.stopped) [
  | inl h ↦ ground (arith, append-nil (queue_at name s.queues))
  | inr h ↦ ground (arith, append-nil (queue_at name s.queues), queue_at-push_back dest e s name h)
]

take-conserves :
    (name src : String) (s : State)
    → queue_at name s.queues
      ≡ (if src == name then result_envelopes (take src false s).0 else [])
        ++ queue_at name (take {S = Unit {0}} src false s).1.queues
take-conserves name src s =
    take_cases
      (λ r.
        queue_at name s.queues
        ≡ (if src == name then result_envelopes r.0 else []) ++ queue_at name r.1.queues)
      src false s (λ _. ground arith) (λ _ _. ground arith)
      (λ e rest _ q. ground (arith, eq_iff src name, queue_at-pop_front src e rest s name))

-- One step: the old queue with what is accepted is what is delivered with the new queue.
step-conserves :
    (name : String) (o : Other) (s : State)
    → queue_at name s.queues ++ accepted_now name o s
      ≡ delivered_now name o s ++ queue_at name (perform o s).queues
unfolding perform stop
step-conserves name (sends dest e) s = send-conserves name dest e s
step-conserves name (takes src) s = append-nil _ ∙ take-conserves name src s
step-conserves name shuts s = append-nil _

-- First in, first out, with nothing lost and nothing made up: over any history, what was queued for an
-- address followed by what was accepted for it is what was delivered from it followed by what is
-- queued for it at the end.
pub history-conserves :
    (name : String) (os : List Other) (s : State)
    → queue_at name s.queues ++ accepted name os s
      ≡ delivered name os s ++ queue_at name (run os s).queues
unfolding accepted delivered run
history-conserves name [] s = append-nil _
history-conserves name (o ∷ os) s =
    let now = step-conserves name o s in
    let later = history-conserves name os (perform o s) in
    sym (append_assoc (queue_at name s.queues) _ _)
    ∙ ap (λ q. q ++ accepted name os (perform o s)) now
    ∙ append_assoc (delivered_now name o s) _ _
    ∙ ap (◌++◌ (delivered_now name o s)) later
    ∙ sym (append_assoc (delivered_now name o s) _ _)

-- Any history keeps the map of queues well formed: one queue for each address, and none empty.
history-IsValid : (os : List Other) (s : State) → IsValid s.queues → IsValid (run os s).queues
unfolding run
history-IsValid [] s v = v
history-IsValid (o ∷ os) s v = history-IsValid os (perform o s) (perform-IsValid o s v)

perform_stopped : (o : Other) (s : State) → s.stopped ≡ true → (perform o s).stopped ≡ true
unfolding perform push_back take stop
perform_stopped (sends dest e) s h = ground arith
perform_stopped (takes name) s h = ground arith
perform_stopped shuts s h = refl

step_stopped :
    (name : String) (o : Other) (s : State)
    → s.stopped ≡ true
    → (accepted_now name o s ≡ []) × (delivered_now name o s ≡ [])
unfolding push_back take
step_stopped name (sends dest e) s h = ground arith
step_stopped name (takes src) s h = ground arith
step_stopped name shuts s h = (refl, refl)

pub run_stopped : (os : List Other) (s : State) → s.stopped ≡ true → (run os s).stopped ≡ true
unfolding run
run_stopped [] s h = h
run_stopped (o ∷ os) s h = run_stopped os (perform o s) (perform_stopped o s h)

-- Once the transport is stopped, no history accepts or delivers anything for any address, and the
-- transport stays stopped.
stopped_is_final :
    (name : String) (os : List Other) (s : State)
    → s.stopped ≡ true
    → (accepted name os s ≡ []) × (delivered name os s ≡ []) × ((run os s).stopped ≡ true)
unfolding accepted delivered run
stopped_is_final name [] s h = (refl, refl, h)
stopped_is_final name (o ∷ os) s h =
    let (a, d) = step_stopped name o s h in
    let (later, after, r) = stopped_is_final name os (perform o s) (perform_stopped o s h) in
    (rw a later, rw d after, r)
