-- ===== src/Qoffload/Environment/Laws.antt =====
-- What the environment does to a configuration.
use mqss_integration_deploym.Base.{String, ◌≡◌, refl, none}
use mqss_integration_deploym.Mqss.Status.{value}
use mqss_integration_deploym.Mqss.Config.{
  Environment, get_env, get_env_or, get_env_or_integer, get_env_or_bool,
}
use mqss_integration_deploym.Qoffload.Config.{Config}
use mqss_integration_deploym.Qoffload.Environment.{apply_all, apply_environment, load}

load_nothing : (c : Config) → load (λ name. none) c ≡ value c
unfolding load apply_environment apply_all get_env get_env_or get_env_or_integer get_env_or_bool
load_nothing c = refl

-- Where no variable is defined, the configuration that is loaded is the default.
pub load-unset :
    (env : Environment) (c : Config) → ((name : String) → env name ≡ none) → load env c ≡ value c
load-unset env c h =
    let empty : env ≡ (λ name. none) = λ i name. h name i in rw empty (load_nothing c)
