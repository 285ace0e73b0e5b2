-- ===== src/Qoffload/Decimal.antt =====
-- Decimal numbers: `std::to_string` and `std::from_chars` of a `std::uint64_t`.
use mqss_integration_deploym.Base.{
  ℕ, zero, suc, ◌+◌, ◌-◌, ◌*◌, ◌/◌, ◌%◌, ◌^◌, ◌<◌, ◌≡◌, refl, Char, code, Bool, true, false, ◌&&◌,
  List, [], ◌∷◌, Option, none, some, leb, ltb, nat_eq, if◌then◌else◌, arith, Bool-cases, inl, inr,
  ◌∙◌, ap,
}

unfoldable pub is_digit : Char → Bool
is_digit c = leb b'0' (code c) && leb (code c) b'9'

abbrev pub digit_value : Char → ℕ
digit_value c = code c - b'0'

-- The digit of a number below 10.
unfoldable pub digit : ℕ → Char
digit zero = "0"
digit (suc zero) = "1"
digit (suc (suc zero)) = "2"
digit (suc (suc (suc zero))) = "3"
digit (suc (suc (suc (suc zero)))) = "4"
digit (suc (suc (suc (suc (suc zero))))) = "5"
digit (suc (suc (suc (suc (suc (suc zero)))))) = "6"
digit (suc (suc (suc (suc (suc (suc (suc zero))))))) = "7"
digit (suc (suc (suc (suc (suc (suc (suc (suc zero)))))))) = "8"
digit (suc (suc (suc (suc (suc (suc (suc (suc (suc n))))))))) = "9"

-- The digits of `n` before `out`; the fuel is more than `n`.
unfoldable pub digits : ℕ → ℕ → List Char → List Char
unfolding digit
digits zero n out = out
digits (suc fuel) n out =
    let more = digits fuel (n / 10) (digit (n % 10) ∷ out) in
    if ltb n 10 then digit n ∷ out else more

unfoldable pub to_string : ℕ → List Char
unfolding digits
to_string n = digits (suc n) n []

-- The digits at the front: the number that they make and what follows them.
unfoldable pub scan_digits : ℕ → List Char → ℕ × List Char
unfolding is_digit
scan_digits acc [] = (acc, [])
scan_digits acc (c ∷ s) =
    let more = scan_digits (acc * 10 + digit_value c) s in if is_digit c then more else (acc, c ∷ s)

abbrev pub starts_with_digit : List Char → Bool
starts_with_digit [] = false
starts_with_digit (c ∷ s) = is_digit c

-- The value and the rest; `none` is an error, for no digit or a number out of range.
unfoldable pub from_chars : List Char → Option (ℕ × List Char)
unfolding scan_digits
from_chars text =
    let scanned = scan_digits 0 text in
    if starts_with_digit text then (if ltb scanned.0 (2 ^ 64) then some scanned else none) else none

pub digit-is_digit : (d : ℕ) → d < 10 → (is_digit (digit d) ≡ true) × (digit_value (digit d) ≡ d)
unfolding digit is_digit
digit-is_digit zero h = (refl, refl)
digit-is_digit (suc zero) h = (refl, refl)
digit-is_digit (suc (suc zero)) h = (refl, refl)
digit-is_digit (suc (suc (suc zero))) h = (refl, refl)
digit-is_digit (suc (suc (suc (suc zero)))) h = (refl, refl)
digit-is_digit (suc (suc (suc (suc (suc zero))))) h = (refl, refl)
digit-is_digit (suc (suc (suc (suc (suc (suc zero)))))) h = (refl, refl)
digit-is_digit (suc (suc (suc (suc (suc (suc (suc zero))))))) h = (refl, refl)
digit-is_digit (suc (suc (suc (suc (suc (suc (suc (suc zero)))))))) h = (refl, refl)
digit-is_digit (suc (suc (suc (suc (suc (suc (suc (suc (suc zero))))))))) h = (refl, refl)
digit-is_digit (suc (suc (suc (suc (suc (suc (suc (suc (suc (suc n)))))))))) h =
    absurd (omega arith)

scan-digit :
    (acc d : ℕ) (s : List Char)
    → d < 10
    → scan_digits acc (digit d ∷ s) ≡ scan_digits (acc * 10 + d) s
unfolding scan_digits
scan-digit acc d s h = ground (arith, digit-is_digit d h)

scan-digits :
    (fuel n : ℕ) (out : List Char)
    → n < fuel
    → scan_digits 0 (digits fuel n out) ≡ scan_digits n out
unfolding digits
scan-digits zero n out h = absurd (omega arith)
scan-digits (suc fuel) n out h = elim (Bool-cases (ltb n 10)) [
  | inl small ↦
      rw small (scan-digit 0 n out (ground arith) ∙ ap (λ k. scan_digits k out) (omega arith))
  | inr large ↦ rw large (
      scan-digits fuel (n / 10) (digit (n % 10) ∷ out) (ground arith)
      ∙ scan-digit (n / 10) (n % 10) out (omega arith)
      ∙ ap (λ k. scan_digits k out) (omega arith))
]

pub digits_start :
    (fuel n : ℕ) (out : List Char) → n < fuel → starts_with_digit (digits fuel n out) ≡ true
unfolding digits
digits_start zero n out h = absurd (omega arith)
digits_start (suc fuel) n out h = elim (Bool-cases (ltb n 10)) [
  | inl small ↦ rw small (digit-is_digit n (ground arith)).0
  | inr large ↦ rw large (digits_start fuel (n / 10) (digit (n % 10) ∷ out) (ground arith))
]

-- What is printed is read back, and nothing is left over.
pub from_chars-to_string : (n : ℕ) → n < 2 ^ 64 → from_chars (to_string n) ≡ some (n, [])
unfolding from_chars to_string
from_chars-to_string n h =
    ground (arith, scan-digits (suc n) n [] (omega arith), digits_start (suc n) n [] (omega arith))
