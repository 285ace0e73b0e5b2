-- ===== src/Mqss/InMemory/Sending.antt =====
-- The answers of `send`, and the features that go with them.
use mqss_integration_deploym.Base.{false, ◌≡◌, ◌↔◌, refl, Option, none, some, arith, is_empty, ◌≢◌}
use mqss_integration_deploym.Mqss.Status
use mqss_integration_deploym.Mqss.Status.{Status}
use mqss_integration_deploym.Mqss.Message.{Address, Envelope}
use mqss_integration_deploym.Mqss.Transport.{SendArgs}
use mqss_integration_deploym.Mqss.InMemory.{State, send, push_back}

-- `send` succeeds exactly when the destination has a name, no confirmation is asked for, and the
-- transport has a state that is not stopped.
send-success_iff :
    (dest : Address) (e : Envelope) (args : SendArgs) (state : Option State)
    → ((send dest e args state).0 ≡ Status.success) ↔ (
        (is_empty dest.name ≡ false)
        × (args.confirm ≡ false)
        × ((s : State) × (state ≡ some s) × (s.stopped ≡ false)))
unfolding send push_back
send-success_iff dest e args none = (λ h. absurd (ground arith), λ r. absurd (ground arith))
send-success_iff dest e args (some s) =
    (λ h. (ground arith, ground arith, (s, refl, ground arith)), λ r. ground arith)

-- A send that does not succeed changes nothing.
send_failed :
    (dest : Address) (e : Envelope) (args : SendArgs) (state : Option State)
    → (send dest e args state).0 ≢ Status.success
    → (send dest e args state).1 ≡ state
unfolding send push_back
send_failed dest e args none h = ground arith
send_failed dest e args (some s) h = ground arith
