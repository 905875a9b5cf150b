-- ===== src/Canonical/Equations.antt =====
-- The recursion of `canonicalize_json` as the source writes it: sort the entries, then recur.
use Prim.Native.String.{◌++◌}
use halley.Common.{String, ◌≡◌, refl, ap, ◌∙◌, List, ◌∷◌, map}
use halley.Common.BTreeMap.{collect, map_values}
use halley.Common.BTreeMap.Laws.{collect-map_values}
use halley.External.{External}
use halley.Json.{Items, Fields, object, array, nil, cons, end, field, fields, items}
use halley.Canonical.{join, entry_text, canonicalize_json, canonical_items, canonical_fields}

module _ (ext : External) where
  canonical_fields-eq-map_values :
      (fs : Fields) → canonical_fields ext fs ≡ map_values (canonicalize_json ext) (fields fs)
  unfolding canonicalize_json
  canonical_fields-eq-map_values end = refl
  canonical_fields-eq-map_values (field k v fs) =
      ap (λ (l : List (String × String)). (k, canonicalize_json ext v) ∷ l)
        (canonical_fields-eq-map_values fs)

  canonical_items-eq-map :
      (vs : Items) → canonical_items ext vs ≡ map (canonicalize_json ext) (items vs)
  unfolding canonicalize_json
  canonical_items-eq-map nil = refl
  canonical_items-eq-map (cons v vs) =
      ap (λ (l : List String). canonicalize_json ext v ∷ l) (canonical_items-eq-map vs)

  -- An object's canonical text is that of its entries collected into a `BTreeMap`, each as its key,
  -- a colon and the canonical text of its value, joined by commas between braces; an array's is
  -- that of its values in order, joined by commas between brackets.
  canonicalize_json-recursion :
      (fs : Fields) (vs : Items)
      → (canonicalize_json ext (object fs)
          ≡ "{"
            ++ (join ","
                  (map (entry_text ext) (map_values (canonicalize_json ext) (collect (fields fs))))
                ++ "}"))
        × (canonicalize_json ext (array vs)
            ≡ "[" ++ (join "," (map (canonicalize_json ext) (items vs)) ++ "]"))
  unfolding canonicalize_json
  canonicalize_json-recursion fs vs = (
    ap (λ (l : List (String × String)). "{" ++ (join "," (map (entry_text ext) l) ++ "}"))
        (ap collect (canonical_fields-eq-map_values fs)
          ∙ collect-map_values (canonicalize_json ext) (fields fs)),
    ap (λ (l : List String). "[" ++ (join "," l ++ "]")) (canonical_items-eq-map vs),
  )
