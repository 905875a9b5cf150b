-- ===== src/Tests/Batches.antt =====
-- A batch of two entries, through the writer.
use Prim.Native.Nat.{min}
use halley.Common.{
  ℕ, ◌*◌, ◌^◌, ◌≤◌, ◌≡◌, refl, false, Option, none, some, List, [], ◌∷◌, ◌++◌, arith,
}
use halley.Domain.Errors.{storage}
use halley.Domain.Rows.{ObservationRow, BodyRow, body_row}
use halley.Domain.Span.{raw_rows}
use halley.Json.{string}
use halley.Pipeline.Retry.{transient_backoff_ms, is_transient_error}
use halley.Pipeline.Retry.Backoff.{transient_backoff_ms_lem}
use halley.Pipeline.Batch.{
  Host, Entry, bulk_string, other_value, decode_batch, dedup, seen, all_ids,
}
use halley.Pipeline.Writer.{Attempt, insert_loop, process_batch, success, still_retrying}
use halley.Pipeline.Batch.Dedup.{AreNew, hashes, dedup_lem}
use halley.Pipeline.Writer.Loop.{Report, insert_loop-Report}
use halley.Pipeline.Writer.Outage.{IsOutage, rounds, insert_loop_outage}
use halley.Pipeline.Writer.Settle.{
  acked, lettered, with_reason, released, rejected, process_batch-released,
}
use halley.Tests.{test_external}
use halley.Tests.Spans.{raw_span}

abbrev two_bodies : List BodyRow
two_bodies =
    body_row test_external 1 7 (string "hi")
    ∷ body_row test_external 1 7 (string "hi")
    ∷ body_row test_external 1 7 (string "later")
    ∷ []

abbrev pub deserialized : List ℕ → Option (ObservationRow × List BodyRow)
deserialized [] = none
deserialized (b ∷ bs) = some (raw_rows test_external 7 raw_span (1 ∷ []) (2 ∷ []) none (1 ∷ []))

abbrev pub test_host : Host
test_host = record { ext = test_external; deserialize = deserialized; lower = λ s. s }

abbrev row : ObservationRow
row = (raw_rows test_external 7 raw_span (1 ∷ []) (2 ∷ []) none (1 ∷ [])).0

abbrev pub network_down : Attempt
network_down = record {
  bodies = some (storage "network unreachable");
  observations = none;
  interrupted = false;
}

abbrev bad_schema : Attempt
bad_schema = record {
  bodies = none;
  observations = some (storage "unknown column");
  interrupted = false;
}

abbrev pub inserted : Attempt
inserted = record { bodies = none; observations = none; interrupted = false }

abbrev three_attempts : List Attempt
three_attempts = network_down ∷ bad_schema ∷ inserted ∷ []

abbrev pub two_entries : List Entry
two_entries =
    record { id = "1-0"; span = some (bulk_string (0 ∷ [])) }
    ∷ record { id = "2-0"; span = some other_value }
    ∷ []

transient_backoff_ms_lem_example :
    (transient_backoff_ms 9 ≡ 200 * 2 ^ min 9 7)
    × (200 ≤ transient_backoff_ms 9)
    × (transient_backoff_ms 9 ≤ 25600)
transient_backoff_ms_lem_example = transient_backoff_ms_lem 9

dedup_lem_example :
    AreNew [] (dedup [] two_bodies)
    × ((h : List ℕ) → seen (hashes (dedup [] two_bodies)) h ≡ seen (hashes two_bodies) h)
dedup_lem_example = dedup_lem two_bodies

insert_loop_test : (insert_loop test_host two_bodies (row ∷ []) 0 three_attempts).outcome ≡ success
unfolding insert_loop
insert_loop_test = refl

insert_loop-Report_example :
    Report test_host 0 three_attempts
      (insert_loop test_host two_bodies (row ∷ []) 0 three_attempts).outcome
insert_loop-Report_example =
    insert_loop-Report test_host two_bodies (row ∷ []) 0 three_attempts (omega arith)

pub network_down-IsOutage : IsOutage test_host network_down
network_down-IsOutage = record {
  error = storage "network unreachable";
  failed = refl;
  transient = unfold is_transient_error in refl;
  slept = refl;
}

insert_loop_outage_example :
    insert_loop test_host two_bodies (row ∷ []) 0 (network_down ∷ network_down ∷ []) ≡ record {
      outcome = still_retrying;
      commands = rounds two_bodies (row ∷ []) (network_down ∷ network_down ∷ []);
    }
insert_loop_outage_example =
    insert_loop_outage test_host two_bodies (row ∷ []) (network_down ∷ network_down ∷ [])
      (network_down-IsOutage, (network_down-IsOutage, tt))

process_batch_test :
    lettered (process_batch test_host two_entries three_attempts).commands
    ≡ ("2-0", "decode_error") ∷ []
unfolding process_batch
process_batch_test = refl

process_batch-released_example :
    (acked (process_batch test_host two_entries three_attempts).commands
      ≡ (decode_batch test_host two_entries).1
        ++ released
            (process_batch test_host two_entries three_attempts).outcome
            (all_ids (decode_batch test_host two_entries).0))
    × (lettered (process_batch test_host two_entries three_attempts).commands
        ≡ with_reason "decode_error" (decode_batch test_host two_entries).1
          ++ with_reason "insert_error" (
              rejected
                (process_batch test_host two_entries three_attempts).outcome
                (all_ids (decode_batch test_host two_entries).0)))
process_batch-released_example = process_batch-released test_host two_entries three_attempts
