-- ===== src/Common/BTreeMap.antt =====
-- `std::collections::BTreeMap<String, V>`, as the list of its entries in iteration order.
pub mod Laws
use Prim.Native.Nat.{Ordering}
use Prim.Native.String.{String, compare}
use mathlib.Core.Bool.{Bool}
use mathlib.Core.Option.{Option, none, some}
use mathlib.Core.List.{List, [], ◌∷◌}
use halley.Common.Tests.{str_eq, if◌then◌else◌, is_some, or_else}

abbrev pub BTreeMap {ℓ} : Type ℓ → Type ℓ
BTreeMap V = List (String × V)

module _ {ℓ} {V : Type ℓ} where
  unfoldable pub get : BTreeMap V → String → Option V
  get [] k = none
  get ((j, w) ∷ m) k = if str_eq j k then some w else get m k

  unfoldable pub insert : String → V → BTreeMap V → BTreeMap V
  insert k v [] = (k, v) ∷ []
  insert k v ((j, w) ∷ m) = elim (compare k j) [
    | Ordering.lt ↦ (k, v) ∷ (j, w) ∷ m
    | Ordering.eq ↦ (k, v) ∷ m
    | Ordering.gt ↦ (j, w) ∷ insert k v m
  ]

  -- `m.entry(k).or_insert(v)`
  unfoldable pub or_insert : String → V → BTreeMap V → BTreeMap V
  or_insert k v m = elim (get m k) [ none ↦ insert k v m | some w ↦ m ]

  unfoldable pub contains_key : BTreeMap V → String → Bool
  unfolding get
  contains_key m k = is_some (get m k)

  -- `Iterator::collect`: the entries are inserted from left to right.
  unfoldable pub extend : BTreeMap V → List (String × V) → BTreeMap V
  unfolding insert
  extend m [] = m
  extend m ((k, v) ∷ l) = extend (insert k v m) l

  unfoldable pub collect : List (String × V) → BTreeMap V
  unfolding extend
  collect l = extend [] l

  -- The last value that a list of entries gives to a key.
  unfoldable pub get_last : List (String × V) → String → Option V
  get_last [] k = none
  get_last ((j, v) ∷ l) k = or_else (get_last l k) (if str_eq j k then some v else none)

-- The values of a list of entries, each under its key.
abbrev pub map_values {ℓ κ} :
    {V : Type ℓ} {W : Type κ} → (V → W) → List (String × V) → List (String × W)
map_values f [] = []
map_values f ((k, v) ∷ l) = (k, f v) ∷ map_values f l
