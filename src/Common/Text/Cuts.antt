-- ===== src/Common/Text/Cuts.antt =====
-- A text is its code points, and the pieces of a text that is cut at a character.
use Prim.Native.Char.{Char, code}
use Prim.Native.String.append
use Prim.Native.String.{◌++◌ as append_text}
use text.Mathlib.TextEquality.{Char-path}
use mathlib.Core.Path.{ap₂}
use halley.Common.{
  ℕ, String, ◌≡◌, refl, ap, sym, ◌∙◌, Bool, true, false, inl, inr, Option, none, some, ◌∷◌, ◌++◌,
  arith, ◌==◌, if◌then◌else◌, Bool-cases,
}
use halley.Common.Text.{codes, extended, rsplit_once, split_once}

-- A text is its code points.
pub codes_inj : (s t : String) → codes s ≡ codes t → s ≡ t
codes_inj String.[] String.[] e = refl
codes_inj String.[] (String.◌∷◌ d t) e = cc
codes_inj (String.◌∷◌ c s) String.[] e = cc
codes_inj (String.◌∷◌ c s) (String.◌∷◌ d t) e =
    let chars = Char-path c d (ground (arith, e)) in
    let rest = codes_inj s t (cc e) in λ i. String.◌∷◌ (chars i) (rest i)

codes_at :
    (c : ℕ) (d : Char) (s a b : String)
    → (code d == c) ≡ true
    → ◌≡◌ {A = Option (String × String)} (some ("", s)) (some (a, b))
    → code d ∷ codes s ≡ codes a ++ c ∷ codes b
codes_at c d s a b same e =
    let left : ◌≡◌ {A = String} "" a = cc e in
    let right : s ≡ b = cc e in
    ap (λ x. x ∷ codes s) (ground (arith, same)) ∙ ap₂ (λ x y. codes x ++ c ∷ codes y) left right

abbrev cut_here : String → Bool → Option (String × String)
cut_here s here = if here then some ("", s) else none

codes-extended :
    (c : ℕ) (d : Char) (s a b : String) (o : Option (String × String))
    → ((a' b' : String) → o ≡ some (a', b') → codes s ≡ codes a' ++ c ∷ codes b')
    → extended c d s o ≡ some (a, b)
    → code d ∷ codes s ≡ codes a ++ c ∷ codes b
codes-extended c d s a b (some (a', b')) h e =
    let left : String.◌∷◌ d a' ≡ a = cc e in
    let right : b' ≡ b = cc e in
    ap (λ l. code d ∷ l) (h a' b' refl) ∙ ap₂ (λ x y. codes x ++ c ∷ codes y) left right
codes-extended c d s a b none h e = elim (Bool-cases (code d == c)) [
  | inl same ↦ codes_at c d s a b same (sym (ap (cut_here s) same) ∙ e)
  | inr other ↦ cc (sym (ap (cut_here s) other) ∙ e)
]

-- The two sides of a cut, with the character between them, are the text.
pub codes-rsplit_once :
    (c : ℕ) (s a b : String) → rsplit_once c s ≡ some (a, b) → codes s ≡ codes a ++ c ∷ codes b
unfolding rsplit_once
codes-rsplit_once c String.[] a b e = cc
codes-rsplit_once c (String.◌∷◌ d s) a b e =
    codes-extended c d s a b (rsplit_once c s) (codes-rsplit_once c s) e

abbrev pub HasNo : ℕ → String → Type 0
HasNo c String.[] = Unit
HasNo c (String.◌∷◌ d s) = ((code d == c) ≡ false) × HasNo c s

-- A text is cut at its first separator.
pub split_once-append :
    (c : ℕ) (sep : Char) (s t : String)
    → code sep ≡ c
    → HasNo c s
    → split_once c (append_text s (String.◌∷◌ sep t)) ≡ some (s, t)
unfolding split_once
split_once-append c sep String.[] t e h = rw (append.nil (String.◌∷◌ sep t)) (ground (arith, e))
split_once-append c sep (String.◌∷◌ d s) t e (ne, h) =
    rw (append.cons d s (String.◌∷◌ sep t)) (ground (arith, ne, split_once-append c sep s t e h))
