-- ===== src/Qoffload/ResourceRegistry.antt =====
-- examples/qoffload_service/include/qoffload/ResourceRegistry.hpp.
use mqss_integration_deploym.Base.{
  ℕ, String, Bool, true, false, List, [], ◌∷◌, Option, none, some, ◌==◌, string_eq, if◌then◌else◌,
}

pub record ResourceInfo : Type 0 where
  pub name : String
  pub qubits : ℕ
  pub online : Bool

-- The table of the constructor.
abbrev pub resources : List ResourceInfo
resources =
    record { name = "QLM"; qubits = 38; online = false }
    ∷ record { name = "Q5"; qubits = 5; online = false }
    ∷ record { name = "Q20"; qubits = 20; online = true }
    ∷ record { name = "AQT20"; qubits = 20; online = true }
    ∷ record { name = "QExa20"; qubits = 20; online = true }
    ∷ []

unfoldable pub find_in : List ResourceInfo → String → Option ResourceInfo
find_in [] name = none
find_in (r ∷ rs) name = if r.name == name then some r else find_in rs name

unfoldable pub find : String → Option ResourceInfo
unfolding find_in
find name = find_in resources name
