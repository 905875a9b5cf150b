-- ===== src/Runner/Junit/Escape.antt =====
-- What an escaped text is read as in an attribute of an XML document.
use Prim.Native.Char.{code}
use Prim.Native.String.{◌++◌ as append}
use halley.Common.{
  ℕ, zero, suc, ◌≡◌, refl, ap, ◌∙◌, String, Bool, true, false, Option, none, some, ◌==◌, ◌||◌, ◌&&◌,
  if◌then◌else◌, arith, and_then, ltb, not, Bool-cases, inl, inr, List, [], ◌∷◌, ◌++◌,
}
use mathlib.Core.Path.{ap₂}
use halley.Common.Text.{codes, codes-append, replace}
use halley.Runner.Junit.{escaped_name, escaped_msg}

abbrev Codes : Type 0
Codes = List ℕ

abbrev with_code : ℕ → Option Codes → Option Codes
with_code c none = none
with_code c (some s) = some (c ∷ s)

abbrev leads : Codes → Codes → Bool
leads [] s = true
leads (p ∷ ps) [] = false
leads (p ∷ ps) (c ∷ s) = (c == p) && leads ps s

-- The characters that XML 1.0 allows in a document, of those of a text.
abbrev is_xml_char : ℕ → Bool
is_xml_char c =
    (c == 0x9 || c == 0xa || c == 0xd || ltb 0x1f c) && (not (c == 0xfffe) && not (c == 0xffff))

abbrev is_space : ℕ → Bool
is_space c = c == 0x9 || c == 0xa || c == 0xd

-- The value that XML 1.0 makes of an attribute's characters (2.11 and 3.3.3): a tab, a line feed and a
-- carriage return become a space, a carriage return with a line feed one of them; `none` for a character
-- that is not allowed.
unfoldable pub normalized : Codes → Option Codes
normalized [] = some []
normalized (c ∷ s) =
    let rest = normalized s in
    if is_xml_char c
    then if (c == 0xd) && leads (0xa ∷ []) s
      then rest
      else if is_space c
      then with_code 0x20 rest
      else with_code c rest
    else none

-- The characters of a value as it is written, which starts after the opening quote, passes over `skip`
-- characters, and ends at the closing quote: the references to `&`, `<`, `>` and `"` stand for these
-- characters; `none` where the text is not well-formed or has another reference.
unfoldable pub referred : (skip : ℕ) → Codes → Option Codes
referred skip [] = none
referred (suc skip) (c ∷ s) = referred skip s
referred zero (c ∷ s) =
    let plain = referred 0 s in
    let after_three = referred 3 s in
    let after_four = referred 4 s in
    let after_five = referred 5 s in
    if c == b'"'
    then some []
    else if c == b'<'
    then none
    else if c == b'&'
    then if leads (codes "amp;") s
      then with_code b'&' after_four
      else if leads (codes "lt;") s
      then with_code b'<' after_three
      else if leads (codes "gt;") s
      then with_code b'>' after_three
      else if leads (codes "quot;") s
      then with_code b'"' after_five
      else none
    else with_code c plain

-- The value of an attribute. As no such reference stands for white space or for a character that is not
-- allowed, the value can be normalized after them.
unfoldable pub read_value : Codes → Option Codes
unfolding referred normalized
read_value s = and_then (referred 0 s) normalized

replace_codes : ℕ → Codes → Codes → Codes
replace_codes c to [] = []
replace_codes c to (d ∷ s) =
    let rest = replace_codes c to s in if d == c then to ++ rest else d ∷ rest

codes-replace :
    (c : ℕ) (to s : String) → codes (replace c to s) ≡ replace_codes c (codes to) (codes s)
unfolding replace replace_codes
codes-replace c to String.[] = refl
codes-replace c to (String.◌∷◌ d s) = elim (Bool-cases (code d == c)) [
  | inl same ↦
      rw same (codes-append to (replace c to s) ∙ ap (λ l. codes to ++ l) (codes-replace c to s))
  | inr other ↦ rw other (ap (λ l. code d ∷ l) (codes-replace c to s))
]

escape_name : Codes → Codes
unfolding replace_codes
escape_name s = replace_codes b'"' (codes "&quot;") (replace_codes b'&' (codes "&amp;") s)

escape_msg : Codes → Codes
unfolding replace_codes
escape_msg s = replace_codes b'"' (codes "&quot;") (
    replace_codes b'>' (codes "&gt;")
      (replace_codes b'<' (codes "&lt;") (replace_codes b'&' (codes "&amp;") s)))

read_msg : (s rest : Codes) → referred 0 (escape_msg s ++ b'"' ∷ rest) ≡ some s
unfolding referred escape_msg replace_codes
read_msg [] rest = refl
read_msg (c ∷ s) rest = ground (arith, read_msg s rest)

abbrev pub has_lt : Codes → Bool
has_lt [] = false
has_lt (c ∷ s) = c == b'<' || has_lt s

read_name :
    (s rest : Codes)
    → referred 0 (escape_name s ++ b'"' ∷ rest) ≡ (if has_lt s then none else some s)
unfolding referred escape_name replace_codes
read_name [] rest = refl
read_name (c ∷ s) rest = ground (arith, read_name s rest)

name_lem :
    (lt : Bool) (s : Codes)
    → and_then (if lt then none else some s) normalized ≡ (if lt then none else normalized s)
name_lem true s = refl
name_lem false s = refl

codes-escaped_msg : (message : String) → codes (escaped_msg message) ≡ escape_msg (codes message)
unfolding escaped_msg escape_msg
codes-escaped_msg message = simp (codes-replace)

codes-escaped_name : (name : String) → codes (escaped_name name) ≡ escape_name (codes name)
unfolding escaped_name escape_name
codes-escaped_name name = simp (codes-replace)

-- In an attribute of an XML document, an escaped message is read as XML has the message itself, whatever
-- follows the closing quote: as it was, but for white space other than the space, which becomes a
-- space; and not at all where a character of the message is not allowed in XML.
pub read_value-escaped_msg :
    (message rest : String)
    → read_value (codes (append (escaped_msg message) (append "\"" rest)))
      ≡ normalized (codes message)
unfolding read_value
read_value-escaped_msg message rest =
    ap (λ l. and_then (referred 0 l) normalized)
      (codes-append (escaped_msg message) _
        ∙ ap₂ ◌++◌ (codes-escaped_msg message) (codes-append "\"" rest))
    ∙ ap (λ o. and_then o normalized) (read_msg (codes message) (codes rest))

-- In an attribute of an XML document, an escaped name with a `<` in it is not well-formed; another is read
-- as XML has the name itself, whatever follows the closing quote: as it was, but for white space other
-- than the space, which becomes a space; and not at all where a character of the name is not allowed
-- in XML.
pub read_value-escaped_name :
    (name rest : String)
    → read_value (codes (append (escaped_name name) (append "\"" rest)))
      ≡ (if has_lt (codes name) then none else normalized (codes name))
unfolding read_value
read_value-escaped_name name rest =
    ap (λ l. and_then (referred 0 l) normalized)
      (codes-append (escaped_name name) _
        ∙ ap₂ ◌++◌ (codes-escaped_name name) (codes-append "\"" rest))
    ∙ ap (λ o. and_then o normalized) (read_name (codes name) (codes rest))
    ∙ name_lem (has_lt (codes name)) (codes name)
