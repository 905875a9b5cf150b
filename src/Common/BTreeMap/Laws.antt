-- ===== src/Common/BTreeMap/Laws.antt =====
-- Lookup after each operation of a `BTreeMap`, its sortedness, and extensionality.
use Prim.Native.Nat.{Ordering}
use Prim.Native.String.{String, compare}
use mathlib.Core.Path.{◌≡◌, refl, sym, ap, ◌∙◌, subst}
use mathlib.Core.Option.{none, some}
use mathlib.Core.List.{List, [], ◌∷◌}
use mathlib.Core.Logic.{◌≢◌}
use native.Mathlib.Omega.{arith}
use text.Mathlib.TextEquality.{eq_iff, path_by_compare}
use text.Mathlib.TextPositions.{eq_refl}
use halley.Common.Tests.{str_eq, if◌then◌else◌, is_some, or_else}
use halley.Common.TextOrder.{compare-flip, compare_trans}
use halley.Common.BTreeMap.{BTreeMap, get, get_last, insert, or_insert, extend, collect, map_values}

module _ {ℓ} {V : Type ℓ} where
  pub get-insert :
      (k j : String) (v : V) (m : BTreeMap V)
      → get (insert k v m) j ≡ (if str_eq k j then some v else get m j)
  unfolding get insert
  get-insert k j v [] = refl
  get-insert k j v ((i, w) ∷ m) = ground (
    arith,
    eq_iff k j,
    eq_iff i k,
    eq_iff i j,
    compare-flip k i,
    path_by_compare k i,
    get-insert k j v m,
  )

  pub get-or_insert :
      (k j : String) (v : V) (m : BTreeMap V)
      → get (or_insert k v m) j
        ≡ (if str_eq k j then (if is_some (get m k) then get m j else some v) else get m j)
  unfolding or_insert
  get-or_insert k j v m = ground (arith, get-insert k j v m)

  -- Every key of the map comes after `k`.
  abbrev pub Above : String → BTreeMap V → Type 0
  Above k [] = Unit
  Above k ((j, w) ∷ m) = (compare k j ≡ Ordering.lt) × Above k m

  abbrev pub IsSorted : BTreeMap V → Type 0
  IsSorted [] = Unit
  IsSorted ((k, v) ∷ m) = Above k m × IsSorted m

  Above-trans : (j k : String) (m : BTreeMap V) → compare j k ≡ Ordering.lt → Above k m → Above j m
  Above-trans j k [] h a = tt
  Above-trans j k ((i, w) ∷ m) h (p, a) = (compare_trans j k i h p, Above-trans j k m h a)

  get-Above : (k : String) (m : BTreeMap V) → Above k m → get m k ≡ none
  unfolding get
  get-Above k [] a = refl
  get-Above k ((j, w) ∷ m) (p, a) = ground (arith, compare-flip k j, get-Above k m a)

  Above-insert :
      (j k : String) (v : V) (m : BTreeMap V)
      → compare j k ≡ Ordering.lt
      → Above j m
      → Above j (insert k v m)
  unfolding insert
  Above-insert j k v [] h a = (h, tt)
  Above-insert j k v ((i, w) ∷ m) h (p, a) = ground (arith, Above-insert j k v m h a)

  pub insert-IsSorted : (k : String) (v : V) (m : BTreeMap V) → IsSorted m → IsSorted (insert k v m)
  unfolding insert
  insert-IsSorted k v [] s = (tt, tt)
  insert-IsSorted k v ((j, w) ∷ m) (a, s) = ground (
    arith,
    compare-flip k j,
    λ (h : compare k j ≡ Ordering.lt). Above-trans k j m h a,
    λ (h : compare k j ≡ Ordering.eq). subst (λ x. Above x m) (sym (path_by_compare k j h)) a,
    λ (h : compare j k ≡ Ordering.lt). Above-insert j k v m h a,
    insert-IsSorted k v m s,
  )

  pub extend-IsSorted :
      (m : BTreeMap V) (l : List (String × V)) → IsSorted m → IsSorted (extend m l)
  unfolding extend
  extend-IsSorted m [] s = s
  extend-IsSorted m ((k, v) ∷ l) s = extend-IsSorted (insert k v m) l (insert-IsSorted k v m s)

  -- The same lookups, key by key.
  abbrev pub SameEntries : BTreeMap V → BTreeMap V → Type ℓ
  SameEntries m n = (k : String) → get m k ≡ get n k

  pub SameEntries-insert :
      (k : String) (v : V) (m n : BTreeMap V)
      → SameEntries m n
      → SameEntries (insert k v m) (insert k v n)
  SameEntries-insert k v m n h j = ground (arith, get-insert k j v m, get-insert k j v n, h j)

  SameEntries-tail :
      (k : String) (v w : V) (m n : BTreeMap V)
      → Above k m
      → Above k n
      → SameEntries ((k, v) ∷ m) ((k, w) ∷ n)
      → SameEntries m n
  unfolding get
  SameEntries-tail k v w m n a b h j =
      ground (arith, h j, get-Above k m a, get-Above k n b, eq_iff k j)

  -- The first keys of two sorted maps with the same lookups agree.
  first_key :
      (j k : String) (v w : V) (m n : BTreeMap V)
      → Above j m
      → Above k n
      → SameEntries ((j, v) ∷ m) ((k, w) ∷ n)
      → j ≡ k
  unfolding get
  first_key j k v w m n a b h = ground (
    arith,
    h j,
    h k,
    eq_refl j,
    eq_refl k,
    eq_iff j k,
    eq_iff k j,
    compare-flip j k,
    path_by_compare j k,
    λ (p : compare j k ≡ Ordering.lt). get-Above j n (Above-trans j k n p b),
    λ (p : compare k j ≡ Ordering.lt). get-Above k m (Above-trans k j m p a),
  )

  cons_eq :
      (k : String) (v w : V) (m n : BTreeMap V)
      → (SameEntries m n → m ≡ n)
      → Above k m
      → Above k n
      → SameEntries ((k, v) ∷ m) ((k, w) ∷ n)
      → ◌≡◌ {A = BTreeMap V} ((k, v) ∷ m) ((k, w) ∷ n)
  unfolding get
  cons_eq k v w m n ih a b h = cc (ih (SameEntries-tail k v w m n a b h), first_value)
    where
      first_value : v ≡ w
      first_value = ground (arith, h k, eq_refl k)

  -- Two sorted maps with the same lookups are the same list of entries.
  pub eq_of_SameEntries : (m n : BTreeMap V) → IsSorted m → IsSorted n → SameEntries m n → m ≡ n
  unfolding get
  eq_of_SameEntries [] [] s t h = refl
  eq_of_SameEntries [] ((k, w) ∷ n) s t h = ground (arith, h k, eq_refl k)
  eq_of_SameEntries ((j, v) ∷ m) [] s t h = ground (arith, h j, eq_refl j)
  eq_of_SameEntries ((j, v) ∷ m) ((k, w) ∷ n) (a, s) (b, t) h =
      subst
        (λ i.
          Above i n
          → SameEntries ((j, v) ∷ m) ((i, w) ∷ n)
          → ◌≡◌ {A = BTreeMap V} ((j, v) ∷ m) ((i, w) ∷ n))
        (first_key j k v w m n a b h) (cons_eq j v w m n (eq_of_SameEntries m n s t) a) b h

  get-extend :
      (m : BTreeMap V) (l : List (String × V)) (k : String)
      → get (extend m l) k ≡ or_else (get_last l k) (get m k)
  unfolding extend get_last
  get-extend m [] k = refl
  get-extend m ((j, v) ∷ l) k = ground (arith, get-extend (insert j v m) l k, get-insert j k v m)

  -- Of the entries with one key the last is kept.
  pub get-collect : (l : List (String × V)) (k : String) → get (collect l) k ≡ get_last l k
  unfolding collect get
  get-collect l k = ground (arith, get-extend [] l k)

  pub collect-IsSorted : (l : List (String × V)) → IsSorted (collect l)
  unfolding collect
  collect-IsSorted l = extend-IsSorted [] l tt

  -- Lists that differ in the order of their entries, and not in the last value of any key, are
  -- collected to one map.
  pub collect-eq :
      (l r : List (String × V))
      → ((k : String) → get_last l k ≡ get_last r k)
      → collect l ≡ collect r
  collect-eq l r h =
      eq_of_SameEntries (collect l) (collect r) (collect-IsSorted l) (collect-IsSorted r)
        λ k. get-collect l k ∙ h k ∙ sym (get-collect r k)

module _ {ℓ} {V : Type ℓ} where
  -- Two neighbouring entries with different keys may change places.
  pub get_last-swap :
      (j k : String) (v w : V) (l : List (String × V)) (i : String)
      → j ≢ k
      → get_last ((j, v) ∷ (k, w) ∷ l) i ≡ get_last ((k, w) ∷ (j, v) ∷ l) i
  unfolding get_last
  get_last-swap j k v w l i ne = ground (arith, eq_iff j i, eq_iff k i)

module _ {ℓ} {V : Type ℓ} where
  -- A sorted map has one entry for a key.
  pub get_last-eq-get : (m : BTreeMap V) (k : String) → IsSorted m → get_last m k ≡ get m k
  unfolding get get_last
  get_last-eq-get [] k s = refl
  get_last-eq-get ((j, v) ∷ m) k (a, s) =
      ground (arith, get_last-eq-get m k s, get-Above j m a, eq_iff j k)

module _ {ℓ κ} {V : Type ℓ} {W : Type κ} (f : V → W) where
  insert-map_values :
      (k : String) (v : V) (m : BTreeMap V)
      → insert k (f v) (map_values f m) ≡ map_values f (insert k v m)
  unfolding insert
  insert-map_values k v [] = refl
  insert-map_values k v ((j, w) ∷ m) = ground (arith, insert-map_values k v m)

  extend-map_values :
      (m : BTreeMap V) (l : List (String × V))
      → extend (map_values f m) (map_values f l) ≡ map_values f (extend m l)
  unfolding extend
  extend-map_values m [] = refl
  extend-map_values m ((k, v) ∷ l) =
      ap (λ (x : BTreeMap W). extend x (map_values f l)) (insert-map_values k v m)
      ∙ extend-map_values (insert k v m) l

  -- Collecting and then changing each value is changing each value and then collecting.
  pub collect-map_values :
      (l : List (String × V)) → collect (map_values f l) ≡ map_values f (collect l)
  unfolding collect
  collect-map_values l = extend-map_values [] l
