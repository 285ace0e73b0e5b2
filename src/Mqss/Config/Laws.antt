-- ===== src/Mqss/Config/Laws.antt =====
-- Which variable wins, what is read back, and that a configuration is stored once.
use mqss_integration_deploym.Base.{
  ℕ, ◌<◌, ◌^◌, String, ◌≡◌, refl, List, [], ◌∷◌, ◌++◌, Option, none, some, arith, All,
}
use mqss_integration_deploym.Mqss.Status
use mqss_integration_deploym.Mqss.Status.{Status, Result, value, unexpected}
use mqss_integration_deploym.Qoffload.Decimal.{to_string, from_chars-to_string}
use mqss_integration_deploym.Qoffload.Path.{text}
use mqss_integration_deploym.Qoffload.Path.Laws.{chars-text}
use mqss_integration_deploym.Mqss.Config.{
  Environment, get_env, get_env_or_integer, parse_uint64, init_config, get_config,
}

-- Of several names for one setting the first that is defined decides, whatever the later ones are.
pub get_env-first :
    (env : Environment) (before after : List String) (name v : String)
    → All (λ n. env n ≡ none) before
    → env name ≡ some v
    → get_env env (before ++ name ∷ after) ≡ some v
unfolding get_env
get_env-first env [] after name v h e = ground arith
get_env-first env (n ∷ before) after name v (h, hs) e =
    ground (arith, h, get_env-first env before after name v hs e)

-- A number below 2 ^ 64 that is written to the environment as `std::to_string` prints it is read back
-- as that number, whatever the fallback, if no earlier name of the setting is defined.
integer-to_string :
    (env : Environment) (before after : List String) (name : String) (n fallback : ℕ)
    → n < 2 ^ 64
    → All (λ m. env m ≡ none) before
    → env name ≡ some (text (to_string n))
    → get_env_or_integer parse_uint64 env (before ++ name ∷ after) fallback ≡ value n
unfolding get_env_or_integer parse_uint64
integer-to_string env before after name n fallback small h e =
    rw
      (
        get_env-first env before after name (text (to_string n)) h e,
        chars-text (to_string n),
        from_chars-to_string n small,
      )
      refl

module _ {C : Type 0} where
  -- Several attempts to store a configuration, and the storage after them.
  unfoldable pub init_all : List C → Option C → Option C
  init_all [] stored = stored
  init_all (c ∷ cs) stored = init_all cs (init_config c stored).1

  init_stored : (cs : List C) (stored : C) → init_all cs (some stored) ≡ some stored
  unfolding init_all init_config
  init_stored [] stored = refl
  init_stored (c ∷ cs) stored = init_stored cs stored

  -- The configuration that is stored first stays: whatever others are tried after it, it is what is
  -- returned, and a further attempt is refused.
  first_config_stays :
      (c d : C) (cs : List C)
      → (get_config (init_all (c ∷ cs) none) ≡ value c)
        × ((init_config d (init_all (c ∷ cs) none)).0
            ≡ Status.configuration "Configuration already initialized")
  unfolding get_config init_all init_config
  first_config_stays c d cs = rw (init_stored cs c) (refl, refl)
