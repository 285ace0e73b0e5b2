-- ===== src/Qrm/GateDefs.antt =====
-- `stripSpuriousGateDefs` of examples/qrm_workflow/src/Compiler.cpp.
pub mod Laws
use mqss_integration_deploym.Base.{
  Char, code, String, Bool, true, false, not, ◌&&◌, ◌||◌, List, [], ◌∷◌, nat_eq, ◌==◌,
  if◌then◌else◌,
}
use mqss_integration_deploym.Qoffload.Path.{chars, text}
use mqss_integration_deploym.Qrm.Lines.{tokens, ended}

abbrev pub Line : Type 0
Line = List Char

-- `std::string::find` with a result.
unfoldable pub starts_with : List Char → Line → Bool
starts_with [] line = true
starts_with (c ∷ s) [] = false
starts_with (c ∷ s) (d ∷ line) = code c == code d && starts_with s line

unfoldable pub finds : List Char → Line → Bool
unfolding starts_with
finds s [] = starts_with s []
finds s (d ∷ line) = starts_with s (d ∷ line) || finds s line

abbrev pub opens : Line → Bool
opens line = finds (chars "gate ") line && finds (chars "{") line

abbrev pub closes : Line → Bool
closes line = finds (chars "}") line

-- The loop: `in_gate_block` is the flag, and the result has the lines that are kept.
unfoldable pub strip_lines : Bool → List Line → List Line
unfolding finds
strip_lines in_gate_block [] = []
strip_lines in_gate_block (line ∷ lines) =
    let inside = strip_lines true lines in
    let outside = strip_lines false lines in
    if opens line
    then inside
    else if in_gate_block
    then (if closes line then outside else inside)
    else line ∷ outside

abbrev pub newline : Char
newline = "\n"

unfoldable pub strip_spurious_gate_defs : String → String
unfolding strip_lines tokens
strip_spurious_gate_defs qasm =
    text (ended newline (strip_lines false (tokens newline (chars qasm))))
