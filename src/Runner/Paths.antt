-- ===== src/Runner/Paths.antt =====
-- `std::path`, as cli/src/main.rs uses it.
--
-- A path is its components, as Rust compares paths, on a Unix system and in valid Unicode.
use Prim.Native.Char.{code}
use Prim.Native.String.{◌++◌ as append}
use halley.Common.{
  String, Bool, not, is_empty, Option, none, some, List, [], ◌∷◌, ◌++◌, ◌==◌, ◌||◌, str_eq,
  if◌then◌else◌, starts_with,
}
use halley.Common.Text.{rsplit_once}

-- The names are the innermost first; a leading `.` of a relative path is one of them.
pub record PathBuf : Type 0 where
  pub is_absolute : Bool
  pub names : List String

-- The pieces of a text between its slashes, the last one first.
slash_pieces : (piece : String) (pieces : List String) → String → List String
slash_pieces piece pieces String.[] = piece ∷ pieces
slash_pieces piece pieces (String.◌∷◌ c s) =
    let next = slash_pieces "" (piece ∷ pieces) s in
    let same = slash_pieces (append piece (String.◌∷◌ c String.[])) pieces s in
    if code c == b'/' then next else same

-- Empty pieces are no components, and a `.` is one only at the beginning of a relative path.
components : List String → List String
components [] = []
components (piece ∷ pieces) =
    let outer = components pieces in
    if str_eq piece ""
    then outer
    else if str_eq piece "."
    then (elim pieces [ [] ↦ piece ∷ [] | p ∷ ps ↦ outer ])
    else piece ∷ outer

-- `PathBuf::new`
unfoldable pub path_of : String → PathBuf
unfolding slash_pieces components
path_of s = record { is_absolute = starts_with s "/"; names = components (slash_pieces "" [] s) }

-- `PathBuf::join`, and of a single name.
without_dot : List String → List String
without_dot [] = []
without_dot (n ∷ names) = let rest = without_dot names in if str_eq n "." then rest else n ∷ rest

abbrev pub join_name : PathBuf → String → PathBuf
join_name base name = record { is_absolute = base.is_absolute; names = name ∷ base.names }

unfoldable pub join_path : PathBuf → PathBuf → PathBuf
unfolding without_dot
join_path base p =
    let inner =
      if base.is_absolute || not (is_empty base.names) then without_dot p.names else p.names in
    if p.is_absolute
    then p
    else record { is_absolute = base.is_absolute; names = inner ++ base.names }

-- `PathBuf::parent`, and `PathBuf::pop` where it is not `none`.
abbrev pub parent : PathBuf → Option PathBuf
parent p = elim p.names [
  | [] ↦ none
  | n ∷ names ↦ some (record { is_absolute = p.is_absolute; names = names })
]

-- `PathBuf::display`
names_text : List String → String
names_text [] = ""
names_text (n ∷ []) = n
names_text (n ∷ m ∷ names) = append (names_text (m ∷ names)) (append "/" n)

unfoldable pub display : PathBuf → String
unfolding names_text
display p = append (if p.is_absolute then "/" else "") (names_text p.names)

-- `PathBuf::file_stem` and `PathBuf::extension` of a name: it is cut at its last dot, unless that is its
-- first character.
abbrev pub cut_name : (name : String) → Option (String × String) → String × Option String
cut_name name none = (name, none)
cut_name name (some (stem, extension)) =
    if str_eq stem "" then (name, none) else (stem, some extension)

unfoldable pub stem_and_extension : String → String × Option String
unfolding rsplit_once
stem_and_extension name = cut_name name (rsplit_once b'.' name)
