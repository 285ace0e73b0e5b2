-- ===== src/Dict.antt =====
-- `std::unordered_map` as an association list with one entry for each key. `erase` drops every entry
-- of its key, which is one entry where the keys are distinct.
use mqss_integration_deploym.Base.{
  suc, ◌≡◌, refl, Bool, List, [], ◌∷◌, Option, none, some, arith, Eq, ◌==◌, if◌then◌else◌, length,
  is_some, value_or, beq_refl,
}

module _ {ℓ κ} {K : Type ℓ} {V : Type κ} ⦃e : Eq K⦄ where
  unfoldable pub find : K → List (K × V) → Option V
  find k [] = none
  find k ((j, v) ∷ m) = if j == k then some v else find k m

  unfoldable pub insert_or_assign : K → V → List (K × V) → List (K × V)
  insert_or_assign k v [] = (k, v) ∷ []
  insert_or_assign k v ((j, w) ∷ m) = if j == k then (k, v) ∷ m else (j, w) ∷ insert_or_assign k v m

  unfoldable pub erase : K → List (K × V) → List (K × V)
  erase k [] = []
  erase k ((j, v) ∷ m) = if j == k then erase k m else (j, v) ∷ erase k m

  unfoldable pub contains : K → List (K × V) → Bool
  unfolding find
  contains k m = is_some (find k m)

  unfoldable pub emplace : K → V → List (K × V) → List (K × V)
  emplace k v [] = (k, v) ∷ []
  emplace k v ((j, w) ∷ m) = if j == k then (j, w) ∷ m else (j, w) ∷ emplace k v m

  -- The key of each entry is not found after it.
  abbrev pub IsDistinct : List (K × V) → Type κ
  IsDistinct [] = Unit
  IsDistinct ((k, v) ∷ m) = (find k m ≡ none) × IsDistinct m

  pub find-insert_or_assign :
      (k j : K) (v : V) (m : List (K × V))
      → find j (insert_or_assign k v m) ≡ (if k == j then some v else find j m)
  unfolding find insert_or_assign
  find-insert_or_assign k j v [] = refl
  find-insert_or_assign k j v ((i, w) ∷ m) =
      ground (arith, e.decides k j, e.decides i k, e.decides i j, find-insert_or_assign k j v m)

  pub find-emplace :
      (k j : K) (v : V) (m : List (K × V))
      → find j (emplace k v m) ≡ (if k == j then some (value_or (find j m) v) else find j m)
  unfolding find emplace
  find-emplace k j v [] = ground (arith, e.decides k j)
  find-emplace k j v ((i, w) ∷ m) =
      ground (arith, e.decides k j, e.decides i k, e.decides i j, find-emplace k j v m)

  pub find-erase :
      (k j : K) (m : List (K × V)) → find j (erase k m) ≡ (if k == j then none else find j m)
  unfolding find erase
  find-erase k j [] = ground arith
  find-erase k j ((i, w) ∷ m) =
      ground (arith, e.decides k j, e.decides i k, e.decides i j, find-erase k j m)

  pub insert_or_assign-IsDistinct :
      (k : K) (v : V) (m : List (K × V)) → IsDistinct m → IsDistinct (insert_or_assign k v m)
  unfolding find insert_or_assign
  insert_or_assign-IsDistinct k v [] d = (refl, tt)
  insert_or_assign-IsDistinct k v ((j, w) ∷ m) (fresh, d) = ground (
    arith,
    e.decides j k,
    e.decides k j,
    find-insert_or_assign k j v m,
    insert_or_assign-IsDistinct k v m d,
  )

  pub erase-IsDistinct : (k : K) (m : List (K × V)) → IsDistinct m → IsDistinct (erase k m)
  unfolding find erase
  erase-IsDistinct k [] d = tt
  erase-IsDistinct k ((j, w) ∷ m) (fresh, d) =
      ground (arith, e.decides j k, e.decides k j, find-erase k j m, erase-IsDistinct k m d)

  erase_missing : (k : K) (m : List (K × V)) → find k m ≡ none → erase k m ≡ m
  unfolding find erase
  erase_missing k [] h = refl
  erase_missing k ((j, w) ∷ m) h = ground (arith, erase_missing k m)

  pub length-erase :
      (k : K) (m : List (K × V)) (v : V)
      → IsDistinct m
      → find k m ≡ some v
      → length m ≡ suc (length (erase k m))
  unfolding find erase
  length-erase k [] v d h = ground arith
  length-erase k ((j, w) ∷ m) v (fresh, d) h =
      ground (arith, e.decides j k, erase_missing j m fresh, length-erase k m v d)

  pub length-insert_new :
      (k : K) (v : V) (m : List (K × V))
      → find k m ≡ none
      → length (insert_or_assign k v m) ≡ suc (length m)
  unfolding find insert_or_assign
  length-insert_new k v [] h = refl
  length-insert_new k v ((j, w) ∷ m) h = ground (arith, length-insert_new k v m)

  pub find-insert_self :
      (k : K) (v : V) (m : List (K × V)) → find k (insert_or_assign k v m) ≡ some v
  find-insert_self k v m = ground (arith, beq_refl k, find-insert_or_assign k k v m)

  pub find-erase_self : (k : K) (m : List (K × V)) → find k (erase k m) ≡ none
  find-erase_self k m = ground (arith, beq_refl k, find-erase k k m)
