-- ===== src/Receiver/Ingest/Owned.antt =====
-- The project of the rows that a receiver makes.
use halley.Common.{ℕ, ◌≡◌, refl, Option, none, some, List, [], All, All-append}
use halley.External.{External, Uuid}
use halley.Json.{Value}
use halley.Domain.Errors.{ok}
use halley.Domain.Rows.{BodyRow, hash_body}
use halley.Domain.CanonicalSpan.{CanonicalSpan}
use halley.Receiver.Ingest.{Stored, owned_rows}

-- The observation and every body are the project's.
abbrev pub IsOwned : Uuid → Stored → Type 0
IsOwned u (o, bodies) = (o.project_id ≡ u) × All (λ (b : BodyRow). b.project_id ≡ u) bodies

hash_body-IsOwned :
    (ext : External) (o : Option Value) (u : Uuid) (now : ℕ) (out : List BodyRow)
    → All (λ (b : BodyRow). b.project_id ≡ u) out
    → All (λ (b : BodyRow). b.project_id ≡ u) (hash_body ext o u now out).1
unfolding hash_body
hash_body-IsOwned ext none u now out h = h
hash_body-IsOwned ext (some v) u now out h =
    All-append (λ (b : BodyRow). b.project_id ≡ u) out _ h (refl, tt)

-- Whatever project the span names, its rows are made, and are those of the project given.
pub owned_rows-IsOwned :
    (ext : External) (now : ℕ) (u : Uuid) (c : CanonicalSpan)
    → (row : Stored) × (owned_rows ext now u c ≡ ok row) × IsOwned u row
unfolding owned_rows
owned_rows-IsOwned ext now u c = (
  _,
  refl,
  (
    refl,
    hash_body-IsOwned ext c.tool_output u now _ (
        hash_body-IsOwned ext c.tool_input u now _ (
          hash_body-IsOwned ext c.output_body u now _
            (hash_body-IsOwned ext c.input_body u now [] tt))),
  ),
)
