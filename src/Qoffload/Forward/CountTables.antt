-- ===== src/Qoffload/Forward/CountTables.antt =====
-- The tables of counts that `processResult` of examples/qoffload_service copies into a completed task.
use mqss_integration_deploym.Base.{
  ℕ, ◌≡◌, refl, String, List, [], ◌∷◌, ◌++◌, none, some, map, first_of, Option-cases, inl, inr,
  arith, string_eq, ◌==◌, if◌then◌else◌,
}
use mqss_integration_deploym.Dict.{find, contains, IsDistinct}
use mqss_integration_deploym.Qoffload.Proto.{Counts}
use mqss_integration_deploym.Qoffload.Forward.{emplace_counts}

-- Tables in the order of the given ones, each with one entry for a state, which has the first count that
-- is given for the state, and with no other entry.
abbrev pub HaveCounts : List Counts → List Counts → Type 0
HaveCounts [] [] = Unit
HaveCounts [] (_ ∷ _) = ⊥
HaveCounts (_ ∷ _) [] = ⊥
HaveCounts (table ∷ tables) (entries ∷ given) =
    ((state : String) → find state table ≡ find state entries)
    × IsDistinct table
    × HaveCounts tables given

find-snoc :
    (key state : String) (count : ℕ) (counts : Counts)
    → find key (counts ++ (state, count) ∷ [])
      ≡ first_of (find key counts) (if state == key then some count else none)
unfolding find
find-snoc key state count [] = refl
find-snoc key state count ((s, c) ∷ counts) = ground (arith, find-snoc key state count counts)

snoc-IsDistinct :
    (state : String) (count : ℕ) (counts : Counts)
    → find state counts ≡ none
    → IsDistinct counts
    → IsDistinct (counts ++ (state, count) ∷ [])
unfolding find
snoc-IsDistinct state count [] h d = (refl, tt)
snoc-IsDistinct state count ((s, c) ∷ counts) h (fresh, d) = ground (
  arith,
  string_eq.decides s state,
  string_eq.decides state s,
  find-snoc s state count counts,
  snoc-IsDistinct state count counts,
)

find-emplace_counts :
    (key : String) (counts entries : Counts)
    → find key (emplace_counts counts entries) ≡ first_of (find key counts) (find key entries)
unfolding emplace_counts find contains
find-emplace_counts key counts [] = ground (arith, Option-cases (find key counts))
find-emplace_counts key counts ((state, count) ∷ entries) = ground (
  arith,
  string_eq.decides state key,
  Option-cases (find state counts),
  Option-cases (find key counts),
  find-snoc key state count counts,
  find-emplace_counts key counts entries,
  find-emplace_counts key (counts ++ (state, count) ∷ []) entries,
)

emplace_counts-IsDistinct :
    (counts entries : Counts) → IsDistinct counts → IsDistinct (emplace_counts counts entries)
unfolding emplace_counts contains
emplace_counts-IsDistinct counts [] d = d
emplace_counts-IsDistinct counts ((state, count) ∷ entries) d =
    elim (Option-cases (find state counts)) [
      | inl h ↦ rw h (
          emplace_counts-IsDistinct (counts ++ (state, count) ∷ []) entries
            (snoc-IsDistinct state count counts h d))
      | inr (c, h) ↦ rw h (emplace_counts-IsDistinct counts entries d)
    ]

-- Every given count is kept.
pub emplaced-HaveCounts : (given : List Counts) → HaveCounts (map (emplace_counts []) given) given
unfolding find
emplaced-HaveCounts [] = tt
emplaced-HaveCounts (entries ∷ given) = (
  λ state. find-emplace_counts state [] entries,
  emplace_counts-IsDistinct [] entries tt,
  emplaced-HaveCounts given,
)
