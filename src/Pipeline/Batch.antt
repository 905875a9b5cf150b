-- ===== src/Pipeline/Batch.antt =====
-- The entries of a batch of ingester/src/pipeline/writer.rs: decoding and deduplication.
pub mod Dedup
use Prim.Native.String.{◌++◌ as append}
use halley.Common.{
  ℕ, ◌+◌, ◌*◌, ◌^◌, String, Bool, true, false, Option, none, some, List, [], ◌∷◌, ◌++◌, map, ◌||◌,
  ltb, ◌==◌, is_empty, if◌then◌else◌,
}
use halley.Common.Int.{pos}
use halley.External.{External}
use halley.Json.{string, number, object, end, field}
use halley.Domain.Errors.{IngestError}
use halley.Domain.Rows.{SpanStatus, ok, error, timeout, ObservationRow, BodyRow}
use halley.Pipeline.Retry.{is_transient_error, transient_backoff_ms}

-- The value of the field "span" of a stream entry.
pub data RedisValue : Type 0 where
  bulk_string : List ℕ → RedisValue
  other_value : RedisValue

pub record Entry : Type 0 where
  pub id : String
  pub span : Option RedisValue

pub record Decoded : Type 0 where
  pub id : String
  pub obs : ObservationRow
  pub bodies : List BodyRow

-- The functions outside the repository: `bincode::deserialize`, `str::to_lowercase`.
pub record Host : Type 0 where
  pub ext : External
  pub deserialize : List ℕ → Option (ObservationRow × List BodyRow)
  pub lower : String → String

module _ (host : Host) where
  decode_rows : String → Option (ObservationRow × List BodyRow) → Option Decoded
  decode_rows id none = none
  decode_rows id (some (obs, bodies)) = some (record { id = id; obs = obs; bodies = bodies })

  decode_value : String → Option RedisValue → Option Decoded
  unfolding decode_rows
  decode_value id (some (bulk_string raw)) = decode_rows id (host.deserialize raw)
  decode_value id _ = none

  -- `none` is an error, of which only the log has the text.
  unfoldable pub decode_entry : Entry → Option Decoded
  unfolding decode_value
  decode_entry entry = decode_value entry.id entry.span

  abbrev pub sort_entry :
      String → Option Decoded → List Decoded × List String → List Decoded × List String
  sort_entry id (some d) (decoded, failed_ids) = (d ∷ decoded, failed_ids)
  sort_entry id none (decoded, failed_ids) = (decoded, id ∷ failed_ids)

  unfoldable pub decode_batch : List Entry → List Decoded × List String
  unfolding decode_entry
  decode_batch [] = ([], [])
  decode_batch (e ∷ entries) = sort_entry e.id (decode_entry e) (decode_batch entries)

bytes_eq : List ℕ → List ℕ → Bool
bytes_eq [] [] = true
bytes_eq (a ∷ xs) (b ∷ ys) = if a == b then bytes_eq xs ys else false
bytes_eq _ _ = false

-- `HashSet::contains` on hashes.
unfoldable pub seen : List (List ℕ) → List ℕ → Bool
unfolding bytes_eq
seen [] h = false
seen (x ∷ xs) h = bytes_eq x h || seen xs h

-- The bodies whose hash has not been seen, in order; `seen_hashes` is the set before.
unfoldable pub dedup : List (List ℕ) → List BodyRow → List BodyRow
unfolding seen
dedup seen_hashes [] = []
dedup seen_hashes (b ∷ bodies) =
    let rest = dedup seen_hashes bodies in
    let kept = b ∷ dedup (b.body_hash ∷ seen_hashes) bodies in
    if seen seen_hashes b.body_hash then rest else kept

abbrev pub all_bodies : List Decoded → List BodyRow
all_bodies [] = []
all_bodies (d ∷ ds) = d.bodies ++ all_bodies ds

abbrev pub all_obs : List Decoded → List ObservationRow
all_obs [] = []
all_obs (d ∷ ds) = d.obs ∷ all_obs ds

abbrev pub all_ids : List Decoded → List String
all_ids [] = []
all_ids (d ∷ ds) = d.id ∷ all_ids ds
