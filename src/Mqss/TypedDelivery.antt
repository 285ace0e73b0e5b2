-- ===== src/Mqss/TypedDelivery.antt =====
-- Messenger, codec and in-memory transport together: typed values arrive in the order of sending.
use mqss_integration_deploym.Base.{
  ℕ, zero, suc, String, false, ◌≡◌, refl, sym, ap, ◌∙◌, List, [], ◌∷◌, ◌++◌, map, Option, none,
  some, arith, is_empty, string_eq, beq_refl, length, append_assoc, append-nil,
}
use mqss_integration_deploym.Mqss.Status.{Result, value}
use mqss_integration_deploym.Mqss.Message.{Address, Envelope}
use mqss_integration_deploym.Mqss.Transport.{ReceiveArgs, default_send_args}
use mqss_integration_deploym.Mqss.InMemory.{
  State, Event, queue_at, push_back, take, pop_front, message_from_envelope, ready,
}
use mqss_integration_deploym.Mqss.InMemory.Laws.{queue_at-push_back, queue_at-pop_front}
use mqss_integration_deploym.Mqss.InMemory.Adapter.{Handle, in_memory, opened, send-opened}
use mqss_integration_deploym.Mqss.Codec.{Codec}
use mqss_integration_deploym.Mqss.Messenger

-- A receive from a queue that holds something returns at once with its front.
receive-opened :
    (src : Address) (args : ReceiveArgs) (s : State) (es : List Event) (e : Envelope)
    (rest : List Envelope)
    → is_empty src.name ≡ false
    → s.stopped ≡ false
    → queue_at src.name s.queues ≡ e ∷ rest
    → in_memory.receive src args (opened s es)
      ≡ some (value (message_from_envelope e), opened (pop_front src.name e rest s) es)
unfolding in_memory take ready
receive-opened src args s es e rest n h q = ground arith

push_back_running :
    (dest : Address) (e : Envelope) (s : State)
    → s.stopped ≡ false
    → (push_back dest e s).1.stopped ≡ false
unfolding push_back
push_back_running dest e s h = ground arith

push_back_own :
    (dest : Address) (e : Envelope) (s : State)
    → s.stopped ≡ false
    → queue_at dest.name (push_back dest e s).1.queues ≡ queue_at dest.name s.queues ++ e ∷ []
push_back_own dest e s h =
    ground (arith, queue_at-push_back dest e s dest.name h, beq_refl dest.name)

pop_front_own :
    (name : String) (e : Envelope) (rest : List Envelope) (s : State)
    → (queue_at name (pop_front name e rest s).queues ≡ rest)
      × ((pop_front name e rest s).stopped ≡ s.stopped)
unfolding pop_front
pop_front_own name e rest s =
    (ground (arith, queue_at-pop_front name e rest s name, beq_refl name), refl)

module _ {T : Type 0} (c : Codec T) (at : Address) where
  -- A client that sends the values one after the other, and one that receives so many times.
  unfoldable pub send_all : List T → Handle → Handle
  send_all [] h = h
  send_all (v ∷ vs) h = send_all vs (Messenger.send in_memory c at v default_send_args h).1

  unfoldable pub receive_all : ℕ → ReceiveArgs → Handle → List (Option (Result T))
  receive_all zero args h = []
  receive_all (suc n) args h = elim (Messenger.receive in_memory c at args h) [
    | none ↦ none ∷ []
    | some (v, h') ↦ some v ∷ receive_all n args h'
  ]

  -- The envelopes are what the codec makes of the values, and it reads them back.
  abbrev pub Encoded : List T → List Envelope → Type 0
  Encoded [] [] = Unit
  Encoded [] (_ ∷ _) = ⊥
  Encoded (_ ∷ _) [] = ⊥
  Encoded (v ∷ vs) (e ∷ es) = (c.encode v ≡ value e) × (c.decode e ≡ value v) × Encoded vs es

  send-encoded :
      (v : T) (e : Envelope) (s : State) (es : List Event)
      → is_empty at.name ≡ false
      → s.stopped ≡ false
      → c.encode v ≡ value e
      → (Messenger.send in_memory c at v default_send_args (opened s es)).1
        ≡ opened (push_back at e s).1 es
  unfolding Messenger.send
  send-encoded v e s es n h enc =
      rw (enc, Messenger.send) (ground (arith, send-opened at e s es n h))

  send_all-opened :
      (vs : List T) (encs : List Envelope) (s : State) (es : List Event)
      → is_empty at.name ≡ false
      → s.stopped ≡ false
      → Encoded vs encs
      → (t : State) × (send_all vs (opened s es) ≡ opened t es)
        × (t.stopped ≡ false)
        × (queue_at at.name t.queues ≡ queue_at at.name s.queues ++ encs)
  unfolding send_all
  send_all-opened [] [] s es n h d = (s, refl, h, sym (append-nil _))
  send_all-opened [] (_ ∷ _) s es n h d = absurd d
  send_all-opened (_ ∷ _) [] s es n h d = absurd d
  send_all-opened (v ∷ vs) (e ∷ encs) s es n h (enc, dec, d) =
      let (t, all, run, q) =
        send_all-opened vs encs (push_back at e s).1 es n (push_back_running at e s h) d in
      (
        t,
        ap (send_all vs) (send-encoded v e s es n h enc) ∙ all,
        run,
        q
            ∙ ap (λ p. p ++ encs) (push_back_own at e s h)
            ∙ append_assoc (queue_at at.name s.queues) (e ∷ []) encs,
      )

  pub receive-decoded :
      (v : T) (e : Envelope) (rest : List Envelope) (args : ReceiveArgs) (s : State)
      (es : List Event)
      → is_empty at.name ≡ false
      → s.stopped ≡ false
      → queue_at at.name s.queues ≡ e ∷ rest
      → c.decode e ≡ value v
      → Messenger.receive in_memory c at args (opened s es)
        ≡ some (value v, opened (pop_front at.name e rest s) es)
  unfolding Messenger.receive
  receive-decoded v e rest args s es n h q dec =
      rw (receive-opened at args s es e rest n h q, Messenger.receive, Messenger.receive_extended)
        (rw dec)

  receive_all-opened :
      (vs : List T) (encs : List Envelope) (args : ReceiveArgs) (s : State) (es : List Event)
      → is_empty at.name ≡ false
      → s.stopped ≡ false
      → queue_at at.name s.queues ≡ encs
      → Encoded vs encs
      → receive_all (length vs) args (opened s es) ≡ map (λ v. some (value v)) vs
  unfolding receive_all
  receive_all-opened [] encs args s es n h q d = refl
  receive_all-opened (v ∷ vs) [] args s es n h q d = absurd d
  receive_all-opened (v ∷ vs) (e ∷ encs) args s es n h q (enc, dec, d) =
      let (own, run) = pop_front_own at.name e encs s in
      rw (receive-decoded v e encs args s es n h q dec, receive_all)
        (ap (◌∷◌ (some (value v)))
          (receive_all-opened vs encs args (pop_front at.name e encs s) es n (run ∙ h) own d))

  -- Values that the codec encodes and decodes back, sent one after the other to an address whose
  -- queue is empty, are returned by as many receives from that address in the order of sending,
  -- whatever the timeouts and whatever the schedule says that other threads do while a receive waits.
  pub receive_all-send_all :
      (vs : List T) (encs : List Envelope) (args : ReceiveArgs) (s : State) (es : List Event)
      → is_empty at.name ≡ false
      → s.stopped ≡ false
      → queue_at at.name s.queues ≡ []
      → Encoded vs encs
      → receive_all (length vs) args (send_all vs (opened s es)) ≡ map (λ v. some (value v)) vs
  receive_all-send_all vs encs args s es n h empty d =
      let (t, all, run, q) = send_all-opened vs encs s es n h d in
      rw all (receive_all-opened vs encs args t es n run (q ∙ ap (λ p. p ++ encs) empty) d)
