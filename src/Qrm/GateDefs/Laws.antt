-- ===== src/Qrm/GateDefs/Laws.antt =====
-- What the removal of gate definitions keeps and what it drops.
use mqss_integration_deploym.Base.{
  String, Bool, true, false, ◌≡◌, refl, ap, ◌∙◌, List, [], ◌∷◌, ◌++◌, All, arith,
}
use mqss_integration_deploym.Qoffload.Path.{chars, text}
use mqss_integration_deploym.Qoffload.Path.Laws.{chars-text}
use mqss_integration_deploym.Qrm.Lines.{tokens, ended, IsFree, tokens-IsFree, tokens-ended}
use mqss_integration_deploym.Qrm.GateDefs.{
  Line, opens, closes, strip_lines, newline, strip_spurious_gate_defs,
}

-- A line that opens no gate definition.
abbrev pub IsPlain : Line → Type 0
IsPlain line = opens line ≡ false

strip_lines-IsPlain : (inside : Bool) (lines : List Line) → All IsPlain (strip_lines inside lines)
unfolding strip_lines
strip_lines-IsPlain inside [] = tt
strip_lines-IsPlain inside (line ∷ lines) =
    ground (arith, strip_lines-IsPlain true lines, strip_lines-IsPlain false lines)

-- Lines that open none are kept.
pub strip_lines-plain : (lines : List Line) → All IsPlain lines → strip_lines false lines ≡ lines
unfolding strip_lines
strip_lines-plain [] plain = refl
strip_lines-plain (line ∷ lines) (h, plain) =
    rw h (ap (λ rest. line ∷ rest) (strip_lines-plain lines plain))

strip_lines-IsFree :
    (inside : Bool) (lines : List Line)
    → All (IsFree newline) lines
    → All (IsFree newline) (strip_lines inside lines)
unfolding strip_lines
strip_lines-IsFree inside [] free = tt
strip_lines-IsFree inside (line ∷ lines) (h, free) =
    ground (arith, h, strip_lines-IsFree true lines free, strip_lines-IsFree false lines free)

-- The text of lines is read back as these lines.
stripped_text :
    (lines : List Line)
    → All (IsFree newline) lines
    → strip_spurious_gate_defs (text (ended newline lines))
      ≡ text (ended newline (strip_lines false lines))
unfolding strip_spurious_gate_defs
stripped_text lines free =
    ap (λ s. text (ended newline (strip_lines false (tokens newline s))))
      (chars-text (ended newline lines))
    ∙ ap (λ ls. text (ended newline (strip_lines false ls))) (tokens-ended newline lines free)

-- Stripping what has been stripped changes nothing.
strip-idempotent :
    (qasm : String)
    → strip_spurious_gate_defs (strip_spurious_gate_defs qasm) ≡ strip_spurious_gate_defs qasm
unfolding strip_spurious_gate_defs
strip-idempotent qasm =
    let kept = strip_lines false (tokens newline (chars qasm)) in
    stripped_text kept
      (strip_lines-IsFree false (tokens newline (chars qasm)) (tokens-IsFree newline (chars qasm)))
    ∙ ap (λ lines. text (ended newline lines))
        (strip_lines-plain kept (strip_lines-IsPlain false (tokens newline (chars qasm))))

-- A program as it is meant: statements, and gate definitions over several lines, from the line that
-- opens one to the line that closes it.
pub data Item : Type 0 where
  statement : Line → Item
  definition : (header : Line) (body : List Line) (closing : Line) → Item

abbrev pub lines_of : List Item → List Line
lines_of [] = []
lines_of (statement line ∷ items) = line ∷ lines_of items
lines_of (definition header body closing ∷ items) = header ∷ (body ++ closing ∷ lines_of items)

abbrev pub statements : List Item → List Line
statements [] = []
statements (statement line ∷ items) = line ∷ statements items
statements (definition header body closing ∷ items) = statements items

-- No line within a definition closes it but its last, which opens no other.
abbrev pub IsItem : Item → Type 0
IsItem (statement line) = IsPlain line
IsItem (definition header body closing) =
    (opens header ≡ true)
    × All (λ line. closes line ≡ false) body
    × (opens closing ≡ false)
    × (closes closing ≡ true)

strip_body :
    (body rest : List Line)
    → All (λ line. closes line ≡ false) body
    → strip_lines true (body ++ rest) ≡ strip_lines true rest
unfolding strip_lines
strip_body [] rest unclosed = refl
strip_body (line ∷ body) rest (h, unclosed) = ground (arith, h, strip_body body rest unclosed)

strip_lines-lines_of :
    (items : List Item) → All IsItem items → strip_lines false (lines_of items) ≡ statements items
unfolding strip_lines
strip_lines-lines_of [] good = refl
strip_lines-lines_of (statement line ∷ items) (h, good) =
    rw h (ap (λ rest. line ∷ rest) (strip_lines-lines_of items good))
strip_lines-lines_of (definition header body closing ∷ items) ((h, unclosed, plain, close), good) =
    rw h (
      strip_body body (closing ∷ lines_of items) unclosed
      ∙ rw (plain, close) (strip_lines-lines_of items good))

-- Of a program of statements and of gate definitions over several lines, with no line break within a
-- line, the statements are kept, in their order and each on a line, and the definitions are dropped.
pub strip-statements :
    (items : List Item)
    → All IsItem items
    → All (IsFree newline) (lines_of items)
    → strip_spurious_gate_defs (text (ended newline (lines_of items)))
      ≡ text (ended newline (statements items))
strip-statements items good free =
    stripped_text (lines_of items) free
    ∙ ap (λ lines. text (ended newline lines)) (strip_lines-lines_of items good)

nothing_kept :
    (rest : List Line) → All (λ line. closes line ≡ false) rest → strip_lines true rest ≡ []
unfolding strip_lines
nothing_kept [] unclosed = refl
nothing_kept (line ∷ rest) (h, unclosed) = ground (arith, h, nothing_kept rest unclosed)

-- A line that opens a gate definition, whether or not it closes it itself, takes everything that
-- follows with it where no later line has a closing brace: of such a text without a line break in a
-- line, whose lines before it are plain statements, exactly these lines are kept.
pub one_line_definition_swallows :
    (before after : List Line) (line : Line)
    → All IsPlain before
    → opens line ≡ true
    → All (λ l. closes l ≡ false) after
    → All (IsFree newline) (before ++ line ∷ after)
    → strip_spurious_gate_defs (text (ended newline (before ++ line ∷ after)))
      ≡ text (ended newline before)
unfolding strip_lines
one_line_definition_swallows before after line plain o unclosed free =
    stripped_text (before ++ line ∷ after) free
    ∙ ap (λ lines. text (ended newline lines)) (kept before plain)
  where
    kept :
        (before : List Line)
        → All IsPlain before
        → strip_lines false (before ++ line ∷ after) ≡ before
    kept [] plain' = rw o (nothing_kept after unclosed)
    kept (l ∷ before') (h, plain') = rw h (ap (λ rest. l ∷ rest) (kept before' plain'))
