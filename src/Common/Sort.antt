-- ===== src/Common/Sort.antt =====
-- `Vec::sort` of texts.
use Prim.Native.Nat.{Ordering}
use Prim.Native.String.{String, compare}
use text.Mathlib.TextEquality.{path_by_compare}
use mathlib.Core.Path.{◌≡◌, refl}
use mathlib.Core.Logic.{◌≢◌}
use mathlib.Core.Option.{Option, none, some}
use mathlib.Core.List.{List, [], ◌∷◌, Perm, Mem, mem-cons_self, mem-cons_of_mem, not-mem-nil}
use mathlib.Core.List.Perm
use native.Mathlib.Omega.{arith}
use halley.Common.Lists.{All}
use halley.Common.TextOrder.{compare-flip, compare_trans}

-- Where a text goes before the first text that is not less than it.
abbrev placed : Ordering → (t u : String) (l inserted : List String) → List String
placed Ordering.gt t u l inserted = u ∷ inserted
placed Ordering.lt t u l inserted = t ∷ u ∷ l
placed Ordering.eq t u l inserted = t ∷ u ∷ l

unfoldable pub insert_text : String → List String → List String
insert_text t [] = t ∷ []
insert_text t (u ∷ l) = placed (compare t u) t u l (insert_text t l)

unfoldable pub sort : List String → List String
unfolding insert_text
sort [] = []
sort (t ∷ l) = insert_text t (sort l)

-- `slice::last`
abbrev pub last {ℓ} : {A : Type ℓ} → List A → Option A
last [] = none
last (a ∷ []) = some a
last (a ∷ b ∷ l) = last (b ∷ l)

infix 40 ◌≤text◌
abbrev pub ◌≤text◌ : String → String → Type 0
t ≤text u = compare t u ≢ Ordering.gt

-- Every text of a list is at most the later ones.
abbrev pub IsOrdered : List String → Type 0
IsOrdered [] = Unit
IsOrdered (t ∷ l) = All (λ u. t ≤text u) l × IsOrdered l

le_trans : (t u v : String) → t ≤text u → u ≤text v → t ≤text v
le_trans t u v h k e = ground (
  arith,
  compare-flip t u,
  compare-flip u v,
  compare-flip t v,
  path_by_compare t u,
  path_by_compare u v,
  compare_trans t u v,
  e,
)

All-le_trans :
    (t u : String) (l : List String) → t ≤text u → All (λ v. u ≤text v) l → All (λ v. t ≤text v) l
All-le_trans t u [] h a = tt
All-le_trans t u (v ∷ l) h (p, a) = (le_trans t u v h p, All-le_trans t u l h a)

module _ {ℓ} (P : String → Type ℓ) where
  All-placed :
      (o : Ordering) (t u : String) (l inserted : List String)
      → P t
      → P u
      → All P l
      → All P inserted
      → All P (placed o t u l inserted)
  All-placed Ordering.gt t u l inserted p q a b = (q, b)
  All-placed Ordering.lt t u l inserted p q a b = (p, (q, a))
  All-placed Ordering.eq t u l inserted p q a b = (p, (q, a))

  All-placed_inv :
      (o : Ordering) (t u : String) (l inserted : List String)
      → All P (placed o t u l inserted)
      → (All P inserted → P t × All P l)
      → P t × (P u × All P l)
  All-placed_inv Ordering.gt t u l inserted (q, b) f = let (p, a) = f b in (p, (q, a))
  All-placed_inv Ordering.lt t u l inserted a f = a
  All-placed_inv Ordering.eq t u l inserted a f = a

  All-insert_text : (t : String) (l : List String) → P t → All P l → All P (insert_text t l)
  unfolding insert_text
  All-insert_text t [] p a = (p, tt)
  All-insert_text t (u ∷ l) p (q, a) =
      All-placed (compare t u) t u l (insert_text t l) p q a (All-insert_text t l p a)

  All-insert_text_inv : (t : String) (l : List String) → All P (insert_text t l) → P t × All P l
  unfolding insert_text
  All-insert_text_inv t [] (p, a) = (p, tt)
  All-insert_text_inv t (u ∷ l) a =
      All-placed_inv (compare t u) t u l (insert_text t l) a (All-insert_text_inv t l)

  pub All-sort_inv : (l : List String) → All P (sort l) → All P l
  unfolding sort
  All-sort_inv [] a = tt
  All-sort_inv (t ∷ l) a = let (p, b) = All-insert_text_inv t (sort l) a in (p, All-sort_inv l b)

  pub All-sort : (l : List String) → All P l → All P (sort l)
  unfolding sort
  All-sort [] a = tt
  All-sort (t ∷ l) (p, a) = All-insert_text t (sort l) p (All-sort l a)

placed-IsOrdered :
    (o : Ordering) (t u : String) (l inserted : List String)
    → compare t u ≡ o
    → All (λ v. u ≤text v) l
    → IsOrdered l
    → (compare t u ≡ Ordering.gt → All (λ v. u ≤text v) inserted)
    → IsOrdered inserted
    → IsOrdered (placed o t u l inserted)
placed-IsOrdered Ordering.gt t u l inserted e a s b r = (b e, r)
placed-IsOrdered Ordering.lt t u l inserted e a s b r =
    ((not_gt, All-le_trans t u l not_gt a), (a, s))
  where
    not_gt : t ≤text u
    not_gt h = cc
placed-IsOrdered Ordering.eq t u l inserted e a s b r =
    ((not_gt, All-le_trans t u l not_gt a), (a, s))
  where
    not_gt : t ≤text u
    not_gt h = cc

flip_le : (t u : String) → compare t u ≡ Ordering.gt → u ≤text t
flip_le t u h e = ground (arith, compare-flip t u, h, e)

insert_text-IsOrdered : (t : String) (l : List String) → IsOrdered l → IsOrdered (insert_text t l)
unfolding insert_text
insert_text-IsOrdered t [] s = (tt, tt)
insert_text-IsOrdered t (u ∷ l) (a, s) =
    placed-IsOrdered (compare t u) t u l (insert_text t l) refl a s
      (λ h. All-insert_text (λ v. u ≤text v) t l (flip_le t u h) a) (insert_text-IsOrdered t l s)

pub sort-IsOrdered : (l : List String) → IsOrdered (sort l)
unfolding sort
sort-IsOrdered [] = tt
sort-IsOrdered (t ∷ l) = insert_text-IsOrdered t (sort l) (sort-IsOrdered l)

Perm-placed :
    (o : Ordering) (t u : String) (l inserted : List String)
    → Perm inserted (t ∷ l)
    → Perm (placed o t u l inserted) (t ∷ u ∷ l)
Perm-placed Ordering.gt t u l inserted p = Perm.trans (Perm.cons u p) (Perm.swap t u l)
Perm-placed Ordering.lt t u l inserted p = Perm.refl (t ∷ u ∷ l)
Perm-placed Ordering.eq t u l inserted p = Perm.refl (t ∷ u ∷ l)

Perm-insert_text : (t : String) (l : List String) → Perm (insert_text t l) (t ∷ l)
unfolding insert_text
Perm-insert_text t [] = Perm.refl (t ∷ [])
Perm-insert_text t (u ∷ l) =
    Perm-placed (compare t u) t u l (insert_text t l) (Perm-insert_text t l)

pub Perm-sort : (l : List String) → Perm (sort l) l
unfolding sort
Perm-sort [] = Perm.refl []
Perm-sort (t ∷ l) = Perm.trans (Perm-insert_text t (sort l)) (Perm.cons t (Perm-sort l))

le_refl : (t : String) → t ≤text t
le_refl t e = ground (arith, compare-flip t t, e)

le_last :
    (t : String) (l : List String)
    → IsOrdered (t ∷ l)
    → (u : String) × (last (t ∷ l) ≡ some u) × Mem u (t ∷ l) × All (λ v. v ≤text u) (t ∷ l)
le_last t [] s = (t, refl, mem-cons_self, (le_refl t, tt))
le_last t (v ∷ l) ((h, a), s) =
    let (u, e, m, (b, c)) = le_last v l s in
    (u, e, mem-cons_of_mem _ m, (le_trans t v u h b, (b, c)))

last-sort-cons :
    (t : String) (l sorted : List String)
    → Perm sorted (t ∷ l)
    → IsOrdered sorted
    → (u : String) × (last sorted ≡ some u) × Mem u (t ∷ l) × All (λ v. v ≤text u) sorted
last-sort-cons t l [] p s = absurd (not-mem-nil ((Perm.mem_iff p).1 mem-cons_self))
last-sort-cons t l (v ∷ sorted) p s =
    let (u, e, m, a) = le_last v sorted s in (u, e, (Perm.mem_iff p).0 m, a)

-- The last text of a sorted list is the greatest.
pub last-sort :
    (t : String) (l : List String)
    → (u : String) × (last (sort (t ∷ l)) ≡ some u) × Mem u (t ∷ l) × All (λ v. v ≤text u) (t ∷ l)
last-sort t l =
    let (u, e, m, a) =
      last-sort-cons t l (sort (t ∷ l)) (Perm-sort (t ∷ l)) (sort-IsOrdered (t ∷ l)) in
    (u, e, m, All-sort_inv (λ v. v ≤text u) (t ∷ l) a)
