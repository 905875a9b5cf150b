-- ===== src/Canonical/KeyOrder.antt =====
-- The canonical text and the order of keys.
use Prim.Native.String.{◌++◌}
use halley.Common.{String, ◌≡◌, refl, ap, ◌∙◌, ◌≢◌, List, map}
use halley.Common.BTreeMap.{get_last}
use halley.Common.BTreeMap.Laws.{collect-eq, get_last-swap}
use halley.External.{External}
use halley.Json.{Value, Items, Fields, object, array, nil, cons, end, field}
use halley.Canonical.{
  join, entry_text, canonicalize_json, canonical_items, canonical_fields, canonical_hash,
}

-- The same value up to the order of entries, at every depth: two neighbouring entries with
-- different keys may change places, any number of times.
mutual
  pub data Reordered : Value → Value → Type 0 where
    same : (v : Value) → Reordered v v
    arrays : {vs ws : Items} → ReorderedItems vs ws → Reordered (array vs) (array ws)
    objects : {fs gs : Fields} → ReorderedFields fs gs → Reordered (object fs) (object gs)

  pub data ReorderedItems : Items → Items → Type 0 where
    none_left : ReorderedItems nil nil
    both :
        {v w : Value} {vs ws : Items}
        → Reordered v w
        → ReorderedItems vs ws
        → ReorderedItems (cons v vs) (cons w ws)

  pub data ReorderedFields : Fields → Fields → Type 0 where
    no_more : ReorderedFields end end
    keep :
        {v w : Value} {fs gs : Fields} (k : String)
        → Reordered v w
        → ReorderedFields fs gs
        → ReorderedFields (field k v fs) (field k w gs)
    swap :
        (j k : String) (v w : Value) (fs : Fields)
        → j ≢ k
        → ReorderedFields (field j v (field k w fs)) (field k w (field j v fs))
    chain :
        {fs gs hs : Fields} → ReorderedFields fs gs → ReorderedFields gs hs → ReorderedFields fs hs

module _ (ext : External) where
  abbrev SameLast : Fields → Fields → Type 0
  SameLast fs gs =
      (i : String) → get_last (canonical_fields ext fs) i ≡ get_last (canonical_fields ext gs) i

  mutual
    unfolding canonicalize_json get_last

    canonical-eq : {v w : Value} → Reordered v w → canonicalize_json ext v ≡ canonicalize_json ext w
    canonical-eq (same v) = refl
    canonical-eq (arrays r) =
        ap (λ (l : List String). "[" ++ (join "," l ++ "]")) (canonical_items-eq r)
    canonical-eq (objects {fs} {gs} r) =
        ap (λ (l : List (String × String)). "{" ++ (join "," (map (entry_text ext) l) ++ "}"))
          (collect-eq (canonical_fields ext fs) (canonical_fields ext gs) (SameLast-fields r))

    canonical_items-eq :
        {vs ws : Items} → ReorderedItems vs ws → canonical_items ext vs ≡ canonical_items ext ws
    canonical_items-eq none_left = refl
    canonical_items-eq (both r rs) = cc (canonical-eq r, canonical_items-eq rs)

    SameLast-fields : {fs gs : Fields} → ReorderedFields fs gs → SameLast fs gs
    SameLast-fields no_more i = refl
    SameLast-fields (keep k r rs) i = cc (canonical-eq r, SameLast-fields rs i)
    SameLast-fields (swap j k v w fs ne) i =
        get_last-swap j k (canonicalize_json ext v) (canonicalize_json ext w)
          (canonical_fields ext fs) i ne
    SameLast-fields (chain r rs) i = SameLast-fields r i ∙ SameLast-fields rs i

  -- Two JSON values that differ only in the order of their object keys, at any depth, have the same
  -- canonical text and the same hash, whatever the digest and the printing of primitives.
  pub canonical_hash-key_order :
      {v w : Value}
      → Reordered v w
      → (canonicalize_json ext v ≡ canonicalize_json ext w)
        × (canonical_hash ext v ≡ canonical_hash ext w)
  unfolding canonical_hash
  canonical_hash-key_order r = (canonical-eq r, ap ext.sha256 (canonical-eq r))
