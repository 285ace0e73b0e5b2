-- ===== src/Mqss/InMemory/Laws.antt =====
-- The in-memory transport seen as one queue of envelopes for each address.
use mqss_integration_deploym.Base.{
  String, Bool, true, false, ◌≡◌, ◌≢◌, refl, inl, inr, List, [], ◌∷◌, ◌++◌, some, ◌==◌, string_eq,
  arith, eq_iff, if◌then◌else◌, Bool-cases,
}
use mqss_integration_deploym.Dict.{
  find, IsDistinct, find-insert_or_assign, find-erase, insert_or_assign-IsDistinct,
  erase-IsDistinct, insert_or_assign, erase,
}
use mqss_integration_deploym.Mqss.Status
use mqss_integration_deploym.Mqss.Status.{Status, Result, value, unexpected, is_ok}
use mqss_integration_deploym.Mqss.Message.{Address, Envelope, Message}
use mqss_integration_deploym.Mqss.InMemory.{
  State, queue_at, push_back, take, perform, Other, sends, takes, shuts, message_from_envelope,
  pop_front,
}

abbrev pub Queues : Type 0
Queues = List (String × List Envelope)

-- The keys are distinct, and no empty queue is kept.
pub record IsValid (m : Queues) : Type 0 where
  pub distinct : IsDistinct m
  pub nonempty : (name : String) → find name m ≢ some []

pub queue_at-insert_or_assign :
    (k j : String) (q : List Envelope) (m : Queues)
    → queue_at j (insert_or_assign k q m) ≡ (if k == j then q else queue_at j m)
unfolding queue_at
queue_at-insert_or_assign k j q m = ground (arith, find-insert_or_assign k j q m)

pub queue_at-erase :
    (k j : String) (m : Queues) → queue_at j (erase k m) ≡ (if k == j then [] else queue_at j m)
unfolding queue_at
queue_at-erase k j m = ground (arith, find-erase k j m)

-- An accepted envelope goes to the end of its own queue, and no other queue changes.
pub queue_at-push_back :
    (dest : Address) (e : Envelope) (s : State) (name : String)
    → s.stopped ≡ false
    → queue_at name (push_back dest e s).1.queues
      ≡ (if dest.name == name then queue_at name s.queues ++ e ∷ [] else queue_at name s.queues)
unfolding push_back
queue_at-push_back dest e s name h = ground (
  arith,
  eq_iff dest.name name,
  queue_at-insert_or_assign dest.name name (queue_at dest.name s.queues ++ e ∷ []) s.queues,
)

pub queue_at-pop_front :
    (name : String) (e : Envelope) (rest : List Envelope) (s : State) (other : String)
    → queue_at other (pop_front name e rest s).queues
      ≡ (if name == other then rest else queue_at other s.queues)
unfolding pop_front
queue_at-pop_front name e [] s other = ground (arith, queue_at-erase name other s.queues)
queue_at-pop_front name e (f ∷ rest) s other =
    ground (arith, queue_at-insert_or_assign name other (f ∷ rest) s.queues)

insert_or_assign-IsValid :
    (name : String) (q : List Envelope) (m : Queues)
    → q ≢ []
    → IsValid m
    → IsValid (insert_or_assign name q m)
insert_or_assign-IsValid name q m h v = record {
  distinct = insert_or_assign-IsDistinct name q m v.distinct;
  nonempty = λ other. ground (arith, find-insert_or_assign name other q m, v.nonempty other);
}

erase-IsValid : (name : String) (m : Queues) → IsValid m → IsValid (erase name m)
erase-IsValid name m v = record {
  distinct = erase-IsDistinct name m v.distinct;
  nonempty = λ other. ground (arith, find-erase name other m, v.nonempty other);
}

append-ne-nil : (q : List Envelope) (e : Envelope) → q ++ e ∷ [] ≢ []
append-ne-nil [] e h = cc
append-ne-nil (f ∷ q) e h = cc

push_back-IsValid :
    (dest : Address) (e : Envelope) (s : State)
    → IsValid s.queues
    → IsValid (push_back dest e s).1.queues
unfolding push_back
push_back-IsValid dest e s v = elim (Bool-cases s.stopped) [
  | inl h ↦ rw h v
  | inr h ↦ rw h (
      insert_or_assign-IsValid dest.name (queue_at dest.name s.queues ++ e ∷ []) s.queues
        (append-ne-nil _ e) v)
]

pop_front-IsValid :
    (name : String) (e : Envelope) (rest : List Envelope) (s : State)
    → IsValid s.queues
    → IsValid (pop_front name e rest s).queues
unfolding pop_front
pop_front-IsValid name e [] s v = erase-IsValid name s.queues v
pop_front-IsValid name e (f ∷ rest) s v =
    insert_or_assign-IsValid name (f ∷ rest) s.queues (λ h. cc) v

-- What `take` does: it refuses once the transport is stopped, finds nothing in an empty queue, and
-- otherwise hands out the front of the queue.
pub take_cases {ℓ} :
    {S : Type 0} (P : Result (Message S) × State → Type ℓ) (name : String) (timed : Bool)
    (s : State)
    → (s.stopped ≡ true → P (unexpected (Status.unavailable "transport shut down"), s))
    → (s.stopped ≡ false
        → queue_at name s.queues ≡ []
        → P (
          unexpected
              (Status.timeout (if timed then "receive timed out" else "no message received")),
          s,
        ))
    → ((e : Envelope) (rest : List Envelope)
        → s.stopped ≡ false
        → queue_at name s.queues ≡ e ∷ rest
        → P (value (message_from_envelope e), pop_front name e rest s))
    → P (take name timed s)
unfolding take
take_cases P name timed s down nothing found = elim (Bool-cases s.stopped) [
  | inl h ↦ simp h (down h)
  | inr h ↦ simp h (by_queue (queue_at name s.queues) refl h)
]
  where
    by_queue :
        (q : List Envelope)
        → queue_at name s.queues ≡ q
        → s.stopped ≡ false
        → P (elim q [
          | [] ↦ (
            unexpected
                (Status.timeout (if timed then "receive timed out" else "no message received")),
            s,
          )
          | front ∷ rest ↦ (value (message_from_envelope front), pop_front name front rest s)
        ])
    by_queue [] q h = nothing h q
    by_queue (e ∷ rest) q h = found e rest h q

take-IsValid :
    (S : Type 0) (name : String) (timed : Bool) (s : State)
    → IsValid s.queues
    → IsValid (take {S = S} name timed s).1.queues
take-IsValid S name timed s v =
    take_cases (λ r. IsValid r.1.queues) name timed s (λ _. v) (λ _ _. v)
      (λ e rest _ _. pop_front-IsValid name e rest s v)

-- Whatever a thread does under the mutex keeps the map well formed.
pub perform-IsValid : (o : Other) (s : State) → IsValid s.queues → IsValid (perform o s).queues
unfolding perform
perform-IsValid (sends dest e) s v = push_back-IsValid dest e s v
perform-IsValid (takes name) s v = take-IsValid (Unit {0}) name false s v
perform-IsValid shuts s v = v
