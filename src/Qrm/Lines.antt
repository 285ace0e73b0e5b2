-- ===== src/Qrm/Lines.antt =====
-- Loops of `std::getline` over a text with a delimiter, in examples/qrm_workflow/src/Compiler.cpp and
-- Submitter.cpp.
use mqss_integration_deploym.Base.{
  Char, code, false, ◌≡◌, refl, List, [], ◌∷◌, ◌++◌, All, is_nil, nat_eq, ◌==◌, if◌then◌else◌,
  arith, beq_refl, Bool-cases, inl, inr, ap, ◌∙◌,
}

-- A character of a token goes in front of the token that follows it.
abbrev pub attach : Char → List (List Char) → List (List Char)
attach c [] = (c ∷ []) ∷ []
attach c (token ∷ tokens) = (c ∷ token) ∷ tokens

-- The tokens of a text: a delimiter ends one, and so does the end of the text, where there is something
-- behind the last delimiter.
unfoldable pub tokens : Char → List Char → List (List Char)
tokens delimiter [] = []
tokens delimiter (c ∷ s) =
    let more = tokens delimiter s in if code c == code delimiter then [] ∷ more else attach c more

-- Each token with the delimiter behind it.
abbrev pub ended : Char → List (List Char) → List Char
ended delimiter [] = []
ended delimiter (token ∷ ts) = token ++ delimiter ∷ ended delimiter ts

-- The tokens with the delimiter between them.
abbrev pub joined : Char → List (List Char) → List Char
joined delimiter [] = []
joined delimiter (token ∷ []) = token
joined delimiter (token ∷ t ∷ ts) = token ++ delimiter ∷ joined delimiter (t ∷ ts)

module _ (delimiter : Char) where
  abbrev pub IsFree : List Char → Type 0
  IsFree token = All (λ c. (code c == code delimiter) ≡ false) token

  attach-IsFree :
      (c : Char) (ts : List (List Char))
      → (code c == code delimiter) ≡ false
      → All IsFree ts
      → All IsFree (attach c ts)
  attach-IsFree c [] h free = ((h, tt), tt)
  attach-IsFree c (t ∷ ts) h (first, rest) = ((h, first), rest)

  -- No token has the delimiter in it.
  pub tokens-IsFree : (s : List Char) → All IsFree (tokens delimiter s)
  unfolding tokens
  tokens-IsFree [] = tt
  tokens-IsFree (c ∷ s) = elim (Bool-cases (code c == code delimiter)) [
    | inl h ↦ rw h (tt, tokens-IsFree s)
    | inr h ↦ rw h (attach-IsFree c (tokens delimiter s) h (tokens-IsFree s))
  ]

  tokens_of_one :
      (c : Char) (token : List Char)
      → IsFree (c ∷ token)
      → tokens delimiter (c ∷ token) ≡ (c ∷ token) ∷ []
  unfolding tokens
  tokens_of_one c [] (h, free) = rw h refl
  tokens_of_one c (b ∷ token) (h, free) = rw h (rw (tokens_of_one b token free) refl)

  tokens_behind :
      (token s : List Char)
      → IsFree token
      → tokens delimiter (token ++ delimiter ∷ s) ≡ token ∷ tokens delimiter s
  unfolding tokens
  tokens_behind [] s free = rw (beq_refl (code delimiter)) refl
  tokens_behind (c ∷ token) s (h, free) = rw h (rw (tokens_behind token s free) refl)

  -- What is written with a delimiter behind each token is read back.
  pub tokens-ended :
      (ts : List (List Char)) → All IsFree ts → tokens delimiter (ended delimiter ts) ≡ ts
  unfolding tokens
  tokens-ended [] free = refl
  tokens-ended (t ∷ ts) (h, free) =
      tokens_behind t (ended delimiter ts) h ∙ ap (λ rest. t ∷ rest) (tokens-ended ts free)

  -- What is written with a delimiter between the tokens is read back, where no token is empty.
  pub tokens-joined :
      (ts : List (List Char))
      → All IsFree ts
      → All (λ t. is_nil t ≡ false) ts
      → tokens delimiter (joined delimiter ts) ≡ ts
  unfolding tokens
  tokens-joined [] free full = refl
  tokens-joined ([] ∷ []) free (h, full) = absurd (ground arith)
  tokens-joined ((c ∷ t) ∷ []) (h, free) full = tokens_of_one c t h
  tokens-joined (t ∷ t' ∷ ts) (h, free) (g, full) =
      tokens_behind t (joined delimiter (t' ∷ ts)) h
      ∙ ap (λ rest. t ∷ rest) (tokens-joined (t' ∷ ts) free full)
