-- ===== src/Domain/CanonicalSpan/Stored.antt =====
-- What `into_rows` stores: the rows of the bodies, and the hashes that refer to them.
use mathlib.Core.List.{append-nil}
use halley.Common.{ℕ, ◌≡◌, refl, Option, none, some, List, [], ◌∷◌, ◌++◌}
use halley.External.{External, Uuid}
use halley.Json.{Value}
use halley.Canonical.{canonical_hash}
use halley.Domain.Errors.{ok}
use halley.Domain.Rows.{ObservationRow, BodyRow, body_row, hash_body}
use halley.Domain.CanonicalSpan.{CanonicalSpan, into_rows}

-- The rows and the hash of one optional body.
abbrev pub rows_of : External → Uuid → ℕ → Option Value → List BodyRow
rows_of ext p now none = []
rows_of ext p now (some v) = body_row ext p now v ∷ []

abbrev pub hash_of : External → Option Value → Option (List ℕ)
hash_of ext none = none
hash_of ext (some v) = some (canonical_hash ext v)

hash_body_lem :
    (ext : External) (p : Uuid) (now : ℕ) (o : Option Value) (out : List BodyRow)
    → hash_body ext o p now out ≡ (hash_of ext o, out ++ rows_of ext p now o)
unfolding hash_body canonical_hash
hash_body_lem ext p now none out = rw append-nil
hash_body_lem ext p now (some v) out = refl

-- The observation has the trace identifier as its run, the canonical hash of each of the four
-- bodies that is present and no hash of one that is absent; the body rows are those of the present
-- bodies in the order input, output, tool input, tool output.
pub into_rows_stored :
    (ext : External) (now : ℕ) (s : CanonicalSpan)
    → (o : ObservationRow) × (into_rows ext now s
        ≡ ok (
          o,
          (((rows_of ext s.project_id now s.input_body
                  ++ rows_of ext s.project_id now s.output_body)
                ++ rows_of ext s.project_id now s.tool_input)
              ++ rows_of ext s.project_id now s.tool_output),
        ))
      × (o.run_id ≡ s.trace_id)
      × (o.input_body_hash ≡ hash_of ext s.input_body)
      × (o.output_body_hash ≡ hash_of ext s.output_body)
      × (o.tool_input_hash ≡ hash_of ext s.tool_input)
      × (o.tool_output_hash ≡ hash_of ext s.tool_output)
unfolding into_rows
into_rows_stored ext now s = simp hash_body_lem (_, refl, refl, refl, refl, refl, refl)
