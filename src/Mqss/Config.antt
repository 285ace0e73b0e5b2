-- ===== src/Mqss/Config.antt =====
-- include/mqss/Config.hpp: values from the environment, and the storage of a configuration. The
-- environment is a function, as `std::getenv` reads it.
pub mod Laws
use mqss_integration_deploym.Base.{
  ℕ, ◌-◌, ◌%◌, ◌^◌, Char, code, String, Bool, true, false, ◌||◌, List, [], ◌∷◌, ◌++◌, Option, none,
  some, leb, ltb, nat_eq, string_eq, ◌==◌, if◌then◌else◌, is_nil,
}
use mqss_integration_deploym.Mqss.Status
use mqss_integration_deploym.Mqss.Status.{Status, Result, value, unexpected}
use mqss_integration_deploym.Qoffload.Decimal.{from_chars, scan_digits, starts_with_digit}
use mqss_integration_deploym.Qoffload.Path.{chars, text}

abbrev pub Environment : Type 0
Environment = String → Option String

-- `getEnv`.
unfoldable pub get_env : Environment → List String → Option String
get_env env [] = none
get_env env (name ∷ names) = elim (env name) [ none ↦ get_env env names | some v ↦ some v ]

abbrev pub or_else : Option String → String → String
or_else none fallback = fallback
or_else (some v) fallback = v

-- The string overload of `getEnvOr`.
unfoldable pub get_env_or : Environment → List String → String → String
unfolding get_env
get_env_or env names fallback = or_else (get_env env names) fallback

-- `*names.begin()` of a list that is not empty.
abbrev pub first_name : List String → String
first_name [] = ""
first_name (name ∷ names) = name

abbrev pub invalid : String → List String → Status
invalid message names = Status.configuration (text (chars message ++ chars (first_name names)))

-- A whole text that `std::from_chars` reads.
abbrev pub whole : Option (ℕ × List Char) → Option ℕ
whole none = none
whole (some (n, rest)) = if is_nil rest then some n else none

-- `std::from_chars` of a whole text for `std::uint64_t`.
unfoldable pub parse_uint64 : List Char → Option ℕ
unfolding from_chars
parse_uint64 s = whole (from_chars s)

-- Of a whole text for `int`, as a bit pattern: a minus sign may stand before the digits.
abbrev pub in_int : Bool → ℕ → Option ℕ
in_int true n = if leb n (2 ^ 31) then some ((2 ^ 32 - n) % 2 ^ 32) else none
in_int false n = if ltb n (2 ^ 31) then some n else none

abbrev pub signed : Bool → Option ℕ → Option ℕ
signed negative none = none
signed negative (some n) = in_int negative n

unfoldable pub parse_int : List Char → Option ℕ
unfolding parse_uint64
parse_int [] = none
parse_int (c ∷ s) =
    if code c == b'-' then signed true (parse_uint64 s) else signed false (parse_uint64 (c ∷ s))

abbrev pub parsed {ℓ} : {A : Type ℓ} → Option A → Status → Result A
parsed none error = unexpected error
parsed (some a) error = value a

abbrev pub parsed_or {ℓ} :
    {A : Type ℓ} → (List Char → Option A) → String → List String → Option String → A → Result A
parsed_or parse message names none fallback = value fallback
parsed_or parse message names (some v) fallback = parsed (parse (chars v)) (invalid message names)

-- The integer overload, for the two parsers.
unfoldable pub get_env_or_integer :
    (List Char → Option ℕ) → Environment → List String → ℕ → Result ℕ
unfolding get_env
get_env_or_integer parse env names =
    parsed_or parse "Invalid integer value for " names (get_env env names)

abbrev pub one_of : List String → String → Bool
one_of [] s = false
one_of (t ∷ ts) s = s == t || one_of ts s

unfoldable pub parse_bool : String → Option Bool
parse_bool s =
    if one_of ("1" ∷ "true" ∷ "TRUE" ∷ "t" ∷ "T" ∷ "yes" ∷ "YES" ∷ "on" ∷ "ON" ∷ []) s
    then some true
    else if one_of ("0" ∷ "false" ∷ "FALSE" ∷ "f" ∷ "F" ∷ "no" ∷ "NO" ∷ "off" ∷ "OFF" ∷ []) s
    then some false
    else none

-- The Boolean overload.
unfoldable pub get_env_or_bool : Environment → List String → Bool → Result Bool
unfolding get_env parse_bool
get_env_or_bool env names =
    parsed_or (λ s. parse_bool (text s)) "Invalid boolean value for " names (get_env env names)

module _ {C : Type 0} where
  -- `loadConfig`: the handlers of the application work on the configuration in place.
  unfoldable pub load_config : C → (C → Status × C) → (C → Status × C) → Result C
  load_config default apply_environment apply_command_line =
      let (env_status, config) = apply_environment default in
      let (line_status, config') = apply_command_line config in
      if Status.is_ok env_status
      then (if Status.is_ok line_status then value config' else unexpected line_status)
      else unexpected env_status

  -- `initConfig` on the storage, which holds nothing at first.
  unfoldable pub init_config : C → Option C → Status × Option C
  init_config config none = (Status.success, some config)
  init_config config (some stored) =
      (Status.configuration "Configuration already initialized", some stored)

  unfoldable pub get_config : Option C → Result C
  get_config none = unexpected (Status.configuration "Configuration not initialized")
  get_config (some stored) = value stored
