-- ===== src/Qoffload/Double.antt =====
-- The doubles of JSON numbers: ± n / 2 ^ k, an infinity, or a NaN. Every finite double is of the first
-- form.
use mqss_integration_deploym.Base.{ℕ, ◌-◌, ◌%◌, ◌^◌, Bool, true, false, ◌==◌, nat_eq, if◌then◌else◌}
use mqss_integration_deploym.Words.{int32_is_negative}

pub data Double : Type 0 where
  finite : (negative : Bool) → (numerator shift : ℕ) → Double
  infinite : (negative : Bool) → Double
  not_a_number : Double

-- `std::isfinite(d) && std::trunc(d) == d`.
unfoldable pub is_integral : Double → Bool
is_integral (finite negative n k) = n % 2 ^ k == 0
is_integral (infinite negative) = false
is_integral not_a_number = false

-- The conversions of an `int` and of an unsigned integer, exact below 2 ^ 53.
unfoldable pub double_of_int32 : ℕ → Double
double_of_int32 x = if int32_is_negative x then finite true (2 ^ 32 - x) 0 else finite false x 0

unfoldable pub double_of_uint : ℕ → Double
double_of_uint n = finite false n 0
