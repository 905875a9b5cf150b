-- ===== src/Common/TextOrder.antt =====
-- The order of texts by code points, Rust's `Ord for str`: a strict total order.
use Prim.Native.Nat.{ℕ, Ordering, compare as compare_ℕ}
use Prim.Native.Char.{code}
use Prim.Native.String.compare
use Prim.Native.String.{String, [], ◌∷◌, compare, then}
use mathlib.Core.Path.{◌≡◌, refl, sym, ◌∙◌, ap, ap₂}
use native.Mathlib.Omega.{arith}

abbrev pub flip : Ordering → Ordering
flip Ordering.lt = Ordering.gt
flip Ordering.eq = Ordering.eq
flip Ordering.gt = Ordering.lt

compare_ℕ-flip : (m n : ℕ) → compare_ℕ n m ≡ flip (compare_ℕ m n)
compare_ℕ-flip m n = ground arith

flip-then : (o r : Ordering) → flip (then o r) ≡ then (flip o) (flip r)
flip-then Ordering.lt r = refl
flip-then Ordering.eq r = refl
flip-then Ordering.gt r = refl

pub compare-flip : (s t : String) → compare t s ≡ flip (compare s t)
compare-flip [] [] = rw compare.nil-nil
compare-flip [] (d ∷ t) = rw (compare.nil-cons, compare.cons-nil)
compare-flip (c ∷ s) [] = rw (compare.nil-cons, compare.cons-nil)
compare-flip (c ∷ s) (d ∷ t) =
    compare.cons-cons d c t s
    ∙ ap₂ then (compare_ℕ-flip (code c) (code d)) (compare-flip s t)
    ∙ sym (flip-then (compare_ℕ (code c) (code d)) (compare s t))
    ∙ ap flip (sym (compare.cons-cons c d s t))

-- The first answer that is not "equal" decides, and the order of numbers is transitive.
then-lt :
    (m n k : ℕ) (o p q : Ordering)
    → (o ≡ Ordering.lt → p ≡ Ordering.lt → q ≡ Ordering.lt)
    → then (compare_ℕ m n) o ≡ Ordering.lt
    → then (compare_ℕ n k) p ≡ Ordering.lt
    → then (compare_ℕ m k) q ≡ Ordering.lt
then-lt m n k o p q h a b = ground (arith, then)

-- `<` on texts is transitive.
pub compare_trans :
    (a b c : String)
    → compare a b ≡ Ordering.lt
    → compare b c ≡ Ordering.lt
    → compare a c ≡ Ordering.lt
compare_trans [] [] c h k = cc
compare_trans [] (y ∷ b) [] h k = cc (compare.cons-nil y b)
compare_trans [] (y ∷ b) (z ∷ c) h k = compare.nil-cons z c
compare_trans (x ∷ a) [] c h k = cc (compare.cons-nil x a)
compare_trans (x ∷ a) (y ∷ b) [] h k = cc (compare.cons-nil y b)
compare_trans (x ∷ a) (y ∷ b) (z ∷ c) h k =
    compare.cons-cons x z a c
    ∙ then-lt (code x) (code y) (code z) (compare a b) (compare b c) (compare a c)
        (compare_trans a b c) (sym (compare.cons-cons x y a b) ∙ h)
        (sym (compare.cons-cons y z b c) ∙ k)
