-- ===== src/Mqss/Features.antt =====
-- Feature sets as sets.
use mqss_integration_deploym.Base.{true, ◌≡◌, ◌↔◌, ◌⊎◌, List, [], ◌∷◌, arith}
use mqss_integration_deploym.Mqss.Transport.{
  Feature, FeatureSet, has, add, feature_set, feature_set_from, feature_index, no_features,
}

abbrev pub Lists : Feature → List Feature → Type 0
Lists f [] = ⊥
Lists f (g ∷ gs) = (f ≡ g) ⊎ Lists f gs

feature_index-injective : (f g : Feature) → feature_index f ≡ feature_index g → f ≡ g
feature_index-injective f g h = ground arith

from_iff :
    (f : Feature) (set : FeatureSet) (fs : List Feature)
    → (has (feature_set_from set fs) f ≡ true) ↔ ((has set f ≡ true) ⊎ Lists f fs)
unfolding feature_set_from has add
from_iff f set [] = ground arith
from_iff f set (g ∷ gs) = ground (arith, from_iff f (add set g) gs, feature_index-injective f g)

-- A feature set has exactly the features of the list that it is made from.
has-feature_set_iff :
    (f : Feature) (fs : List Feature) → (has (feature_set fs) f ≡ true) ↔ Lists f fs
unfolding feature_set has
has-feature_set_iff f fs = ground (arith, from_iff f no_features fs)
