-- ===== src/Qrm/Submitter/Histogram.antt =====
-- The histogram of a device on its way into a result.
use mqss_integration_deploym.Base.{
  ℕ, ◌<◌, ◌≤◌, ◌≡◌, ◌↔◌, refl, ap, ◌∙◌, String, false, List, [], ◌∷◌, Option, none, some, map, All,
  is_nil, length, first_of, Option-cases, inl, inr, arith, string_eq,
}
use mqss_integration_deploym.Dict.{find, insert_or_assign, IsDistinct, find-insert_or_assign}
use mqss_integration_deploym.Words.{to_int32}
use mqss_integration_deploym.Qoffload.Path.{chars, text}
use mqss_integration_deploym.Qoffload.Path.Laws.{chars-text, text-chars}
use mqss_integration_deploym.Qoffload.Proto.{Counts}
use mqss_integration_deploym.Qrm.Lines.{joined, IsFree, tokens-joined}
use mqss_integration_deploym.Qrm.Submitter.{comma, split_keys, gather}

-- A list of keys as a device writes it.
abbrev pub key_list : List String → String
key_list keys = text (joined comma (map chars keys))

-- A state: characters that are no comma, and at least one.
abbrev pub IsKey : String → Type 0
IsKey key = IsFree comma (chars key) × (is_nil (chars key) ≡ false)

texts-chars : (keys : List String) → map text (map chars keys) ≡ keys
texts-chars [] = refl
texts-chars (key ∷ keys) = rw (text-chars key) (ap (λ rest. key ∷ rest) (texts-chars keys))

keys-IsFree : (keys : List String) → All IsKey keys → All (IsFree comma) (map chars keys)
keys-IsFree [] good = tt
keys-IsFree (key ∷ keys) ((h, n), good) = (h, keys-IsFree keys good)

keys_full : (keys : List String) → All IsKey keys → All (λ t. is_nil t ≡ false) (map chars keys)
keys_full [] good = tt
keys_full (key ∷ keys) ((h, n), good) = (n, keys_full keys good)

-- A list of keys is split into the keys.
pub split_keys-key_list : (keys : List String) → All IsKey keys → split_keys (key_list keys) ≡ keys
unfolding split_keys
split_keys-key_list keys good = rw (chars-text (joined comma (map chars keys))) (
    ap (map text)
      (tokens-joined comma (map chars keys) (keys-IsFree keys good) (keys_full keys good))
    ∙ texts-chars keys)

abbrev pub zipped : List String → List ℕ → Counts
zipped [] values = []
zipped (key ∷ keys) [] = []
zipped (key ∷ keys) (v ∷ values) = (key, v) ∷ zipped keys values

-- The counts are there exactly when there is one for each key.
pub gather-none_iff :
    (keys : List String) (values : List ℕ) (counts : Counts)
    → (gather keys values counts ≡ none) ↔ (length values < length keys)
unfolding gather
gather-none_iff [] values counts = ground arith
gather-none_iff (key ∷ keys) [] counts = ground arith
gather-none_iff (key ∷ keys) (v ∷ values) counts =
    ground (arith, gather-none_iff keys values (insert_or_assign key (to_int32 v) counts))

first_of-none : {A : Type 0} (o : Option A) → first_of o none ≡ o
first_of-none none = refl
first_of-none (some a) = refl

zipped_fresh :
    (k : String) (keys : List String) (values : List ℕ)
    → find k (zipped keys values) ≡ none
    → find k (zipped keys (map to_int32 values)) ≡ none
unfolding find
zipped_fresh k [] values h = refl
zipped_fresh k (key ∷ keys) [] h = refl
zipped_fresh k (key ∷ keys) (v ∷ values) h = ground (arith, zipped_fresh k keys values)

find-gather :
    (keys : List String) (values : List ℕ) (counts gathered : Counts) (key : String)
    → IsDistinct (zipped keys values)
    → gather keys values counts ≡ some gathered
    → find key gathered ≡ first_of (find key (zipped keys (map to_int32 values))) (find key counts)
unfolding gather find
find-gather [] values counts gathered key d h = ground arith
find-gather (k ∷ keys) [] counts gathered key d h = absurd (ground arith)
find-gather (k ∷ keys) (v ∷ values) counts gathered key (fresh, d) h = ground (
  arith,
  zipped_fresh k keys values fresh,
  string_eq.decides k key,
  find-gather keys values (insert_or_assign k (to_int32 v) counts) gathered key d h,
  find-insert_or_assign k key (to_int32 v) counts,
)

-- Enough counts are gathered.
pub gather-some :
    (keys : List String) (values : List ℕ) (counts : Counts)
    → length keys ≤ length values
    → (gathered : Counts) × (gather keys values counts ≡ some gathered)
gather-some keys values counts enough = elim (Option-cases (gather keys values counts)) [
  | inl e ↦ absurd (let short = (gather-none_iff keys values counts).0 e in omega arith)
  | inr there ↦ there
]

-- A histogram that the device writes as a list of keys and as many counts, for distinct states that are
-- not empty and have no comma, is gathered: every state has its count as the conversion to an int32
-- leaves it, the count modulo 2^32 as a bit pattern, and there is no other state.
pub histogram_gathered :
    (keys : List String) (values : List ℕ)
    → All IsKey keys
    → IsDistinct (zipped keys values)
    → length values ≡ length keys
    → (counts : Counts) × (gather (split_keys (key_list keys)) values [] ≡ some counts)
      × ((key : String) → find key counts ≡ find key (zipped keys (map to_int32 values)))
unfolding find
histogram_gathered keys values good d same =
    let (counts, there) = gather-some keys values [] (omega (arith, same)) in
    (
      counts,
      rw (split_keys-key_list keys good) there,
      λ key.
          find-gather keys values [] counts key d there
          ∙ first_of-none (find key (zipped keys (map to_int32 values))),
    )
