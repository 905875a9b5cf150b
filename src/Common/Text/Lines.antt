-- ===== src/Common/Text/Lines.antt =====
-- The lines of a text, and lines that are not blank.
use Prim.Native.Char.{Char, code}
use Prim.Native.String.append
use Prim.Native.String.compare
use text.Mathlib.Text.{is_eq}
use Prim.Native.String.{◌++◌ as append_text}
use halley.Common.{String, ◌≡◌, refl, ap, ◌∙◌, false, ◌∷◌, arith, str_eq}
use halley.Common.Text.{is_whitespace, trim_start, trim_end, trim, closed, lines}
use halley.Common.Text.Cuts.{HasNo}

closed-nonempty :
    (c : Char) (t : String) → is_whitespace (code c) ≡ false → str_eq (closed c t) "" ≡ false
closed-nonempty c String.[] h = rw h (ap is_eq (compare.cons-nil c ""))
closed-nonempty c (String.◌∷◌ d t) h = ap is_eq (compare.cons-nil c (String.◌∷◌ d t))

trim_start-visible :
    (c : Char) (s : String)
    → is_whitespace (code c) ≡ false
    → trim_start (String.◌∷◌ c s) ≡ String.◌∷◌ c s
unfolding trim_start
trim_start-visible c s h = rw h refl

-- A text that begins with a visible character is not blank.
pub trim-nonempty :
    (c : Char) (s : String)
    → is_whitespace (code c) ≡ false
    → str_eq (trim (String.◌∷◌ c s)) "" ≡ false
unfolding trim trim_end
trim-nonempty c s h =
    ap (λ t. str_eq (trim_end t) "") (trim_start-visible c s h) ∙ closed-nonempty c (trim_end s) h

-- A line ends at its newline.
pub lines-cons :
    (line rest : String)
    → HasNo b'\n' line
    → HasNo b'\r' line
    → lines (append_text line (String.◌∷◌ "\n" rest)) ≡ line ∷ lines rest
unfolding lines
lines-cons String.[] rest h k = rw (append.nil (String.◌∷◌ "\n" rest)) refl
lines-cons (String.◌∷◌ c s) rest (ne, h) (nr, k) =
    rw (append.cons c s (String.◌∷◌ "\n" rest)) (ground (arith, ne, nr, lines-cons s rest h k))
