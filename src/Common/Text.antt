-- ===== src/Common/Text.antt =====
-- Texts as lists of code points, and the searches for a character in them.
pub mod Cuts
pub mod Lines
use Prim.Native.Char.{Char, code}
use Prim.Native.Nat.{ℕ}
use Prim.Native.String.append
use Prim.Native.String.{String, ◌++◌ as append_text}
use mathlib.Core.Path.{◌≡◌, refl, ap, ap₂, sym, ◌∙◌}
use mathlib.Core.Bool.{Bool, true, false, ◌&&◌, ◌||◌}
use mathlib.Core.Logic.{inl, inr}
use mathlib.Core.Option.{Option, none, some}
use mathlib.Core.List.{List, [], ◌∷◌, ◌++◌}
use text.Mathlib.TextEquality.{Char-path}
use native.Mathlib.Omega.{arith}
use halley.Common.Tests.{ltb, ◌==◌, if◌then◌else◌, Bool-cases}

abbrev pub codes : String → List ℕ
codes String.[] = []
codes (String.◌∷◌ c s) = code c ∷ codes s

pub codes-append : (s t : String) → codes (append_text s t) ≡ codes s ++ codes t
codes-append String.[] t = ap codes (append.nil t)
codes-append (String.◌∷◌ c s) t =
    ap codes (append.cons c s t) ∙ ap (λ l. code c ∷ l) (codes-append s t)

-- `str::replace` of a character, given by its code.
unfoldable pub replace : ℕ → String → String → String
replace c to String.[] = ""
replace c to (String.◌∷◌ d s) =
    let rest = replace c to s in if code d == c then append_text to rest else String.◌∷◌ d rest

-- `str::split_once` of a character.
unfoldable pub split_once : ℕ → String → Option (String × String)
split_once c String.[] = none
split_once c (String.◌∷◌ d s) =
    let rest = split_once c s in
    if code d == c
    then some ("", s)
    else elim rest [ none ↦ none | some (a, b) ↦ some (String.◌∷◌ d a, b) ]

-- `str::rsplit_once` of a character.
abbrev pub extended : ℕ → Char → String → Option (String × String) → Option (String × String)
extended c d s (some (a, b)) = some (String.◌∷◌ d a, b)
extended c d s none = if code d == c then some ("", s) else none

unfoldable pub rsplit_once : ℕ → String → Option (String × String)
rsplit_once c String.[] = none
rsplit_once c (String.◌∷◌ d s) = extended c d s (rsplit_once c s)

-- `char::is_whitespace`
unfoldable pub is_whitespace : ℕ → Bool
is_whitespace c =
    (ltb 8 c && ltb c 14)
    || (ltb 8191 c && ltb c 8203)
    || c == 32
    || c == 133
    || c == 160
    || c == 5760
    || c == 8232
    || c == 8233
    || c == 8239
    || c == 8287
    || c == 12288

unfoldable pub trim_start : String → String
unfolding is_whitespace
trim_start String.[] = ""
trim_start (String.◌∷◌ c s) =
    let rest = trim_start s in if is_whitespace (code c) then rest else String.◌∷◌ c s

abbrev pub closed : Char → String → String
closed c String.[] = if is_whitespace (code c) then "" else String.◌∷◌ c String.[]
closed c (String.◌∷◌ d t) = String.◌∷◌ c (String.◌∷◌ d t)

unfoldable pub trim_end : String → String
unfolding is_whitespace
trim_end String.[] = ""
trim_end (String.◌∷◌ c s) = closed c (trim_end s)

-- `str::trim`
unfoldable pub trim : String → String
unfolding trim_start trim_end
trim s = trim_end (trim_start s)

-- `str::lines`: a line ends at a newline, with a carriage return before it that is no part of it; there
-- is no empty last line.
abbrev pub is_at : ℕ → String → Bool
is_at c String.[] = false
is_at c (String.◌∷◌ d s) = code d == c

abbrev pub with_first : Char → List String → List String
with_first c [] = String.◌∷◌ c String.[] ∷ []
with_first c (line ∷ rest) = String.◌∷◌ c line ∷ rest

unfoldable pub lines : String → List String
lines String.[] = []
lines (String.◌∷◌ c s) =
    let rest = lines s in
    if code c == b'\n'
    then "" ∷ rest
    else if code c == b'\r' && is_at b'\n' s
    then rest
    else with_first c rest
