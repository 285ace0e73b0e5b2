-- ===== src/Qoffload/Path.antt =====
-- `splitPath` of examples/qoffload_service/src/control/RestControlProtocol.cpp, over the characters of
-- the path.
pub mod Laws
use mqss_integration_deploym.Base.{
  Char, code, String, Bool, true, false, List, [], ◌∷◌, ◌++◌, Option, none, some, nat_eq, ◌==◌,
  ◌&&◌, is_nil, if◌then◌else◌,
}

abbrev pub chars : String → List Char
chars String.[] = []
chars (String.◌∷◌ c s) = c ∷ chars s

abbrev pub text : List Char → String
text [] = String.[]
text (c ∷ s) = String.◌∷◌ c (text s)

abbrev pub is_slash : Char → Bool
is_slash c = code c == b'/'

-- The loop of `remove_prefix`.
unfoldable pub skip_slashes : List Char → List Char
skip_slashes [] = []
skip_slashes (c ∷ s) = let more = skip_slashes s in if is_slash c then more else c ∷ s

-- The loop of `remove_suffix`: a slash goes when nothing is left behind it.
unfoldable pub drop_slashes : List Char → List Char
drop_slashes [] = []
drop_slashes (c ∷ s) =
    let kept = drop_slashes s in if is_slash c && is_nil kept then [] else c ∷ kept

-- `path.substr(0, separator)`, and what follows the separator, if there is one.
unfoldable pub find_separator : List Char → List Char × Option (List Char)
find_separator [] = ([], none)
find_separator (c ∷ s) =
    let (part, rest) = find_separator s in if is_slash c then ([], some s) else (c ∷ part, rest)

-- The loop over the parts; the fuel bounds the rounds, of which there are at most as many as
-- characters.
unfoldable pub split_parts : List Char → List Char → List (List Char)
split_parts [] fuel = []
split_parts (c ∷ s) [] = []
split_parts (c ∷ s) (_ ∷ fuel) =
    let (part, rest) = find_separator (c ∷ s) in
    part ∷ elim rest [ none ↦ [] | some path ↦ split_parts path fuel ]

unfoldable pub split_path : List Char → List (List Char)
unfolding skip_slashes drop_slashes split_parts find_separator
split_path path = let trimmed = drop_slashes (skip_slashes path) in split_parts trimmed trimmed

abbrev pub ends_with_slash : List Char → Bool
ends_with_slash [] = false
ends_with_slash (c ∷ []) = is_slash c
ends_with_slash (c ∷ d ∷ s) = ends_with_slash (d ∷ s)

abbrev pub with_separator : List Char → List Char → List Char
with_separator [] name = name
with_separator (c ∷ dir) name =
    (c ∷ dir) ++ (if ends_with_slash (c ∷ dir) then name else "/" ∷ name)

-- `(std::filesystem::path(dir) / name).string()` of a relative name, as in the configurations of the
-- examples.
unfoldable pub path_in : String → String → String
path_in dir name = text (with_separator (chars dir) (chars name))
