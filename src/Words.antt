-- ===== src/Words.antt =====
-- Machine words. An `int32_t` is its bit pattern, a number below 2 ^ 32; the conversions below are
-- those of C++20, modulo a power of two.
use mqss_integration_deploym.Base.{
  ℕ, ◌+◌, ◌-◌, ◌%◌, ◌^◌, ◌<◌, ◌≡◌, Bool, true, false, arith, ltb, if◌then◌else◌,
}

-- `static_cast<std::int32_t>(x)` of a `std::uint64_t`.
abbrev pub to_int32 : ℕ → ℕ
to_int32 x = x % 2 ^ 32

-- `static_cast<std::uint64_t>(x)` of an `std::int32_t`: the sign is extended.
abbrev pub int32_to_uint64 : ℕ → ℕ
int32_to_uint64 x = if ltb x (2 ^ 31) then x else x + (2 ^ 64 - 2 ^ 32)

-- `x < 0` of an `std::int32_t`.
abbrev pub int32_is_negative : ℕ → Bool
int32_is_negative x = if ltb x (2 ^ 31) then false else true

-- Addition and multiplication of `std::uint64_t`.
abbrev pub wrap64 : ℕ → ℕ
wrap64 x = x % 2 ^ 64

-- A number below 2 ^ 31 survives the way through an `int32_t`.
pub int32_round_trip : (x : ℕ) → x < 2 ^ 31 → int32_to_uint64 (to_int32 x) ≡ x
int32_round_trip x h = ground arith
