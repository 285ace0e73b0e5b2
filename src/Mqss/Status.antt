-- ===== src/Mqss/Status.antt =====
-- include/mqss/Status.hpp: a status is a code with a reason, and a result is a value or a status.
use mqss_integration_deploym.Base.{String, Bool}
use mqss_integration_deploym.Mqss.StatusCode
use mqss_integration_deploym.Mqss.StatusCode.{StatusCode}

pub record Status : Type 0 where
  pub code : StatusCode
  pub reason : String

abbrev pub success : Status
success = record { code = StatusCode.ok; reason = "" }

abbrev pub timeout : String → Status
timeout reason = record { code = StatusCode.timeout; reason = reason }

abbrev pub unavailable : String → Status
unavailable reason = record { code = StatusCode.unavailable; reason = reason }

abbrev pub unsupported : String → Status
unsupported reason = record { code = StatusCode.unsupported; reason = reason }

abbrev pub invalid_argument : String → Status
invalid_argument reason = record { code = StatusCode.invalid_argument; reason = reason }

abbrev pub serialization : String → Status
serialization reason = record { code = StatusCode.serialization; reason = reason }

abbrev pub configuration : String → Status
configuration reason = record { code = StatusCode.configuration; reason = reason }

abbrev pub internal : String → Status
internal reason = record { code = StatusCode.internal; reason = reason }

-- `Status::ok`.
abbrev pub is_ok : Status → Bool
is_ok s = StatusCode.is_ok s.code

-- `Result<T>`, which is `std::expected<T, Status>`.
pub data Result {ℓ} (A : Type ℓ) : Type ℓ where
  value : A → Result A
  unexpected : Status → Result A
