-- ===== src/Qrm/Run.antt =====
-- How a piece of a workflow process ends, and what a round of a process sends and logs.
use mqss_integration_deploym.Base.{String, Option, none, some, Bool, List, [], ◌∷◌, if◌then◌else◌}
use mqss_integration_deploym.Mqss.StatusCode
use mqss_integration_deploym.Mqss.Status
use mqss_integration_deploym.Mqss.Status.{Status}
use mqss_integration_deploym.Qoffload.Proto.{QuantumTask, QuantumResult}

-- With a result, with an exception by its text, or not at all: a failed assertion and an access out of
-- range end the process.
pub data Ending {ℓ} (A : Type ℓ) : Type ℓ where
  finished : A → Ending A
  thrown : (what : String) → Ending A
  crashed : Ending A

abbrev pub then_do {ℓ} : {A B : Type ℓ} → Ending A → (A → Ending B) → Ending B
then_do (finished a) k = k a
then_do (thrown what) k = thrown what
then_do crashed k = crashed

-- A computation on the state `W` of the device.
abbrev pub Run : Type 0 → Type 0 → Type 0
Run W A = W → Ending (A × W)

abbrev pub pure : {W A : Type 0} → A → Run W A
pure a w = finished (a, w)

infixl 5 ◌>>=◌ ◌>>◌
abbrev pub ◌>>=◌ : {W A B : Type 0} → Run W A → (A → Run W B) → Run W B
◌>>=◌ m k w = then_do (m w) (λ (a, w'). k a w')

abbrev pub ◌>>◌ : {W B : Type 0} → Run W (Unit {0}) → Run W B → Run W B
m >> k = m >>= λ _. k

-- `assert(ret == QDMI_SUCCESS)` after a call that gives a value.
abbrev pub asserted : {W A : Type 0} → (W → Option A × W) → Run W A
asserted call w = let (o, w') = call w in elim o [ none ↦ crashed | some a ↦ finished (a, w') ]

-- After one that gives none.
abbrev pub required : {W : Type 0} → (W → Bool × W) → Run W (Unit {0})
required call w = let (ok, w') = call w in if ok then finished (tt, w') else crashed

-- A value that must be there.
abbrev pub present : {W A : Type 0} → Option A → Run W A
present none w = crashed
present (some a) w = finished (a, w)

-- A call that cannot fail.
abbrev pub always : {W A : Type 0} → (W → A × W) → Run W A
always call w = finished (call w)

pub data Effect : Type 0 where
  send_task : (queue : String) → QuantumTask → Effect
  send_result : (queue : String) → QuantumResult → Effect
  log_error : (message reason : String) → Effect

-- A receive without a message: a timeout is passed over, anything else is logged.
abbrev pub not_received : String → Status → List Effect
not_received message error =
    if StatusCode.is_timeout error.code then [] else log_error message error.reason ∷ []

-- A send, and the log line of its failure.
abbrev pub after_send : Effect → String → Status → List Effect
after_send effect message status =
    if Status.is_ok status then effect ∷ [] else effect ∷ log_error message status.reason ∷ []
