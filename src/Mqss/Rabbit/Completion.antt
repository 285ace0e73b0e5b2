-- ===== src/Mqss/Rabbit/Completion.antt =====
-- A delivered message is completed at most once.
use mqss_integration_deploym.Base.{
  ℕ, ◌+◌, ◌≤◌, ◌≡◌, refl, ◌∙◌, inl, inr, Bool, true, false, List, [], ◌∷◌, arith, Bool-cases,
  if◌then◌else◌,
}
use mqss_integration_deploym.Mqss.Status
use mqss_integration_deploym.Mqss.Status.{Status}
use mqss_integration_deploym.Mqss.Message.{Envelope, Message, ack, nack}
use mqss_integration_deploym.Mqss.Transport.{manual}
use mqss_integration_deploym.Mqss.Rabbit.{
  Call, returned, threw, Delivery, AckState, attempted, make_message_from_delivery,
}

-- The calls that a client may make on a message.
pub data Completion : Type 0 where
  acks : Completion
  nacks : Bool → Completion

abbrev pub successes : List Status → ℕ
successes [] = 0
successes (status ∷ rest) = (if Status.is_ok status then 1 else 0) + successes rest

module _ {W : Type 0} where
  unfoldable pub complete : Message (AckState W) → Completion → AckState W → Status × AckState W
  unfolding ack nack
  complete m acks s = ack m s
  complete m (nacks again) s = nack m again s

  unfoldable pub complete_all :
      Message (AckState W) → List Completion → AckState W → List Status × AckState W
  unfolding complete
  complete_all m [] s = ([], s)
  complete_all m (c ∷ cs) s =
      let (status, s') = complete m c s in
      let (later, s'') = complete_all m cs s' in (status ∷ later, s'')

  refused :
      (d : Delivery W) (e : Envelope) (c : Completion) (s : AckState W)
      → s.completed ≡ true
      → complete (make_message_from_delivery d e manual) c s
        ≡ (Status.internal "message already acked/nacked", s)
  unfolding complete make_message_from_delivery
  refused d e acks s h = rw h refl
  refused d e (nacks again) s h = rw h refl

  -- A first completion succeeds and closes the message, or fails and leaves it open.
  attempt :
      (d : Delivery W) (e : Envelope) (c : Completion) (s : AckState W)
      → s.completed ≡ false
      → ((complete (make_message_from_delivery d e manual) c s).1.completed
          ≡ Status.is_ok (complete (make_message_from_delivery d e manual) c s).0)
  unfolding complete make_message_from_delivery
  attempt d e acks s h = rw h (closes (d.basic_ack s.world))
    where
      closes :
          (r : Call × W)
          → (attempted "ack failed: " r).1.completed ≡ Status.is_ok (attempted "ack failed: " r).0
      closes (returned _, w) = refl
      closes (threw what, w) = refl
  attempt d e (nacks again) s h = rw h (closes (d.basic_reject again s.world))
    where
      closes :
          (r : Call × W)
          → (attempted "nack failed: " r).1.completed ≡ Status.is_ok (attempted "nack failed: " r).0
      closes (returned _, w) = refl
      closes (threw what, w) = refl

  -- A completed message refuses whatever follows, and the broker is not called again.
  all_refused :
      (d : Delivery W) (e : Envelope) (cs : List Completion) (s : AckState W)
      → s.completed ≡ true
      → (successes (complete_all (make_message_from_delivery d e manual) cs s).0 ≡ 0)
        × ((complete_all (make_message_from_delivery d e manual) cs s).1 ≡ s)
  unfolding complete_all
  all_refused d e [] s h = (refl, refl)
  all_refused d e (c ∷ cs) s h =
      let (none_later, kept) = all_refused d e cs s h in
      rw (refused d e c s h) (omega (arith, none_later), kept)

  -- Of any sequence of calls of `ack` and `nack` on a message that was received for manual
  -- acknowledgment at most one succeeds, whatever the client library does.
  pub completed_at_most_once :
      (d : Delivery W) (e : Envelope) (cs : List Completion) (s : AckState W)
      → successes (complete_all (make_message_from_delivery d e manual) cs s).0 ≤ 1
  unfolding complete_all
  completed_at_most_once d e [] s = omega arith
  completed_at_most_once d e (c ∷ cs) s =
      let m = make_message_from_delivery d e manual in
      let later = (complete m c s).1 in
      let ih = completed_at_most_once d e cs later in
      elim (Bool-cases s.completed) [
        | inl done ↦
            let none_now = refused d e c s done in
            rw none_now (omega (arith, (all_refused d e cs s done).0))
        | inr undone ↦ elim (Bool-cases (Status.is_ok (complete m c s).0)) [
          | inl ok ↦
              rw ok (omega (arith, (all_refused d e cs later (attempt d e c s undone ∙ ok)).0))
          | inr failed ↦ rw failed (omega (arith, ih))
        ]
      ]

  -- Once an `ack` or a `nack` has succeeded, no later call reaches the broker or the channel.
  nothing_after_success :
      (d : Delivery W) (e : Envelope) (c : Completion) (cs : List Completion) (s : AckState W)
      → Status.is_ok (complete (make_message_from_delivery d e manual) c s).0 ≡ true
      → (complete_all (make_message_from_delivery d e manual) (c ∷ cs) s).1
        ≡ (complete (make_message_from_delivery d e manual) c s).1
  unfolding complete_all
  nothing_after_success d e c cs s ok =
      let later = (complete (make_message_from_delivery d e manual) c s).1 in
      elim (Bool-cases s.completed) [
        | inl done ↦ absurd (ground (arith, refused d e c s done))
        | inr undone ↦ (all_refused d e cs later (attempt d e c s undone ∙ ok)).1
      ]
