-- ===== src/Canonical.antt =====
-- The crate halley-canonical (halley-canonical/src/lib.rs): canonical JSON and its SHA-256.
pub mod Equations
pub mod KeyOrder
use Prim.Native.String.{◌++◌}
use halley.Common.{String, List, [], ◌∷◌, map, ℕ}
use halley.Common.BTreeMap.{collect}
use halley.External.{External}
use halley.Json.{Value, Items, Fields, array, object, nil, cons, end, field}

-- `[String]::join`
unfoldable pub join : String → List String → String
join sep [] = ""
join sep (s ∷ []) = s
join sep (s ∷ t ∷ l) = s ++ (sep ++ join sep (t ∷ l))

abbrev pub entry_text : External → String × String → String
entry_text ext (k, c) = ext.key_to_string k ++ (":" ++ c)

-- The source sorts the entries and then recurs into their values. Here the values are made
-- canonical first, so that the recursion is structural; `Equations` shows that this is the same.
unfoldable mutual
  unfolding join collect

  pub canonicalize_json : External → Value → String
  canonicalize_json ext (object fs) =
      "{" ++ (join "," (map (entry_text ext) (collect (canonical_fields ext fs))) ++ "}")
  canonicalize_json ext (array vs) = "[" ++ (join "," (canonical_items ext vs) ++ "]")
  canonicalize_json ext other = ext.to_string other

  pub canonical_items : External → Items → List String
  canonical_items ext nil = []
  canonical_items ext (cons v vs) = canonicalize_json ext v ∷ canonical_items ext vs

  pub canonical_fields : External → Fields → List (String × String)
  canonical_fields ext end = []
  canonical_fields ext (field k v fs) = (k, canonicalize_json ext v) ∷ canonical_fields ext fs

-- The digest of the canonical text; `sha256` gives its 32 bytes.
unfoldable pub canonical_hash : External → Value → List ℕ
canonical_hash ext value = ext.sha256 (canonicalize_json ext value)
