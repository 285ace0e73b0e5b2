-- ===== src/Qoffload/Path/Laws.antt =====
-- Splitting a path that is joined from its parts.
use mqss_integration_deploym.Base.{
  Char, String, true, false, ◌≡◌, refl, ap, ◌∙◌, List, [], ◌∷◌, ◌++◌, none, some, arith, nat_eq,
  is_nil, All, length, ◌≤◌, length-append, append-nil,
}
use mqss_integration_deploym.Qoffload.Path.{
  chars, text, is_slash, skip_slashes, drop_slashes, find_separator, split_parts, split_path,
}

pub text-chars : (s : String) → text (chars s) ≡ s
text-chars String.[] = refl
text-chars (String.◌∷◌ c s) = ap (String.◌∷◌ c) (text-chars s)

pub chars-text : (l : List Char) → chars (text l) ≡ l
chars-text [] = refl
chars-text (c ∷ l) = ap (◌∷◌ c) (chars-text l)

-- A part: characters that are no slash, and at least one.
abbrev pub NoSlash : List Char → Type 0
NoSlash = All (λ c. is_slash c ≡ false)

abbrev pub IsPart : List Char → Type 0
IsPart p = NoSlash p × (is_nil p ≡ false)

-- The parts with a slash before each.
abbrev pub joined : Char → List (List Char) → List Char
joined slash [] = []
joined slash (p ∷ ps) = slash ∷ (p ++ joined slash ps)

find_separator_end : (p : List Char) → NoSlash p → find_separator p ≡ (p, none)
unfolding find_separator
find_separator_end [] h = refl
find_separator_end (c ∷ p) (n, h) = ground (arith, find_separator_end p h)

find_separator_at :
    (p : List Char) (slash : Char) (s : List Char)
    → NoSlash p
    → is_slash slash ≡ true
    → find_separator (p ++ slash ∷ s) ≡ (p, some s)
unfolding find_separator
find_separator_at [] slash s h e = ground arith
find_separator_at (c ∷ p) slash s (n, h) e = ground (arith, find_separator_at p slash s h e)

split_path_lem :
    (path : List Char)
    → split_path path
      ≡ split_parts (drop_slashes (skip_slashes path)) (drop_slashes (skip_slashes path))
unfolding split_path
split_path_lem path = refl

drop-NoSlash :
    (p rest : List Char)
    → NoSlash p
    → drop_slashes rest ≡ rest
    → drop_slashes (p ++ rest) ≡ p ++ rest
unfolding drop_slashes
drop-NoSlash [] rest h e = e
drop-NoSlash (c ∷ p) rest (n, h) e = ground (arith, drop-NoSlash p rest h e)

module _ (slash : Char) (is : is_slash slash ≡ true) where
  split_parts-joined :
      (p : List Char) (ps : List (List Char)) (fuel : List Char)
      → IsPart p
      → All IsPart ps
      → length (p ++ joined slash ps) ≤ length fuel
      → split_parts (p ++ joined slash ps) fuel ≡ p ∷ ps
  unfolding split_parts
  split_parts-joined [] ps fuel (n, ne) h l = cc
  split_parts-joined (c ∷ p) ps [] (n, ne) h l = absurd (omega arith)
  split_parts-joined (c ∷ p) [] (_ ∷ fuel) (n, ne) h l =
      rw (append-nil p, find_separator_end (c ∷ p) n) refl
  split_parts-joined (c ∷ p) (q ∷ qs) (_ ∷ fuel) (n, ne) (hq, hqs) l =
      let shorter : length (q ++ joined slash qs) ≤ length fuel =
        omega (arith, length-append {0} p (slash ∷ (q ++ joined slash qs))) in
      rw (find_separator_at (c ∷ p) slash (q ++ joined slash qs) n is)
        (ap (◌∷◌ (c ∷ p)) (split_parts-joined q qs fuel hq hqs shorter))

  drop-joined :
      (ps : List (List Char)) → All IsPart ps → drop_slashes (joined slash ps) ≡ joined slash ps
  unfolding drop_slashes
  drop-joined [] h = refl
  drop-joined ([] ∷ ps) ((n, ne), h) = cc
  drop-joined ((c ∷ p) ∷ ps) ((n, ne), h) =
      let kept = drop-NoSlash (c ∷ p) (joined slash ps) n (drop-joined ps h) in ground (arith, kept)

  skip_to_part :
      (p : List Char) (rest : List Char) → IsPart p → skip_slashes (slash ∷ (p ++ rest)) ≡ p ++ rest
  unfolding skip_slashes
  skip_to_part [] rest (n, ne) = cc
  skip_to_part (c ∷ p) rest (n, ne) = ground arith

  -- A path that is built from parts, with one slash before each, is split into these parts. A part has
  -- a character and no slash.
  pub split_path-joined :
      (p : List Char) (ps : List (List Char))
      → IsPart p
      → All IsPart ps
      → split_path (joined slash (p ∷ ps)) ≡ p ∷ ps
  split_path-joined p ps h hs =
      let trimmed : drop_slashes (skip_slashes (joined slash (p ∷ ps))) ≡ p ++ joined slash ps =
        ap drop_slashes (skip_to_part p (joined slash ps) h)
        ∙ drop-NoSlash p (joined slash ps) h.0 (drop-joined ps hs) in
      split_path_lem _
      ∙ ap (λ t. split_parts t t) trimmed
      ∙ split_parts-joined p ps (p ++ joined slash ps) h hs (omega arith)
