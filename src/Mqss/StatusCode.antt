-- ===== src/Mqss/StatusCode.antt =====
-- The status codes of include/mqss/Status.hpp.
use mqss_integration_deploym.Base.{Bool, true, false}

pub data StatusCode : Type 0 where
  ok timeout unavailable unsupported invalid_argument serialization configuration internal :
      StatusCode

-- `code == StatusCode::Ok` and `code == StatusCode::Timeout`.
abbrev pub is_ok : StatusCode → Bool
is_ok StatusCode.ok = true
is_ok _ = false

abbrev pub is_timeout : StatusCode → Bool
is_timeout StatusCode.timeout = true
is_timeout _ = false
