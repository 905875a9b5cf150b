-- ===== src/Delivery.antt =====
-- The stream between the receiver and the writer: what ingester/src/pipeline/publisher.rs adds to it, as
-- ingester/src/pipeline/writer.rs reads it.
pub mod Delivered
pub mod Database
pub mod AtLeastOnce
use halley.Common.{
  ℕ, ◌≡◌, refl, ap, sym, ◌∙◌, String, Option, none, some, List, [], ◌∷◌, ◌++◌, map, All,
}
use halley.Domain.Rows.{ObservationRow, BodyRow}
use halley.Receiver.Ingest.{Stored}
use halley.Pipeline.Batch.{
  Entry, RedisValue, bulk_string, Decoded, Host, decode_entry, decode_batch,
}

-- An entry of the stream: its id, given by Redis, and the rows in its field "span".
abbrev pub Published : Type 0
Published = String × Stored

-- `serialize` is `bincode::serialize`, and the host's `deserialize` its inverse where rows read back.
module _ (host : Host) (serialize : Stored → List ℕ) where
  abbrev pub ReadsBack : Stored → Type 0
  ReadsBack row = host.deserialize (serialize row) ≡ some row

  unfoldable pub entry_of : Published → Entry
  entry_of (id, row) = record { id = id; span = some (bulk_string (serialize row)) }

  abbrev pub decoded_of : Published → Decoded
  decoded_of (id, (obs, bodies)) = record { id = id; obs = obs; bodies = bodies }

  decode_entry-entry_of :
      (p : Published) → ReadsBack p.1 → decode_entry host (entry_of p) ≡ some (decoded_of p)
  unfolding decode_entry entry_of
  decode_entry-entry_of (id, row) back = rw back refl

  -- Published rows that read back are what the writer decodes, entry by entry and in order, and none of
  -- them is taken for an entry that cannot be decoded.
  pub decode_batch-entry_of :
      (published : List Published)
      → All (λ p. ReadsBack p.1) published
      → decode_batch host (map entry_of published) ≡ (map decoded_of published, [])
  unfolding decode_batch
  decode_batch-entry_of [] all = refl
  decode_batch-entry_of (p ∷ published) (back, all) =
      rw (decode_entry-entry_of p back, decode_batch-entry_of published all) refl
