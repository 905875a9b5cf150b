-- ===== src/Pipeline/Writer.antt =====
-- ingester/src/pipeline/writer.rs: one batch of the Redis stream, decoded, deduplicated, inserted
-- into ClickHouse with retries, and acknowledged.
--
-- The writer is a function from what its environment answers (the replies of Redis, the results of
-- the inserts, whether a shutdown interrupts a sleep) to the commands that it issues, in order.
pub mod Loop
pub mod Outage
pub mod Settle
pub mod Conserved
use Prim.Native.String.{◌++◌ as append}
use halley.Common.{
  ℕ, ◌+◌, ◌*◌, ◌^◌, String, Bool, true, false, Option, none, some, List, [], ◌∷◌, ◌++◌, map, ◌||◌,
  ltb, ◌==◌, is_empty, if◌then◌else◌,
}
use halley.Common.Int.{pos}
use halley.External.{External}
use halley.Json.{string, number, object, end, field}
use halley.Domain.Errors.{IngestError}
use halley.Pipeline.Batch.{Entry, Decoded, Host, decode_batch, dedup, all_bodies, all_obs, all_ids}
use halley.Domain.Rows.{SpanStatus, ok, error, timeout, ObservationRow, BodyRow}
use halley.Pipeline.Retry.{is_transient_error, transient_backoff_ms}

abbrev pub max_retries : ℕ
max_retries = 3

-- What the writer asks of Redis and of ClickHouse, and its sleeps in milliseconds.
pub data Command : Type 0 where
  dead_letter : (original_id : String) (reason : String) → Command
  ack : (ids : List String) → Command
  insert_bodies : List BodyRow → Command
  insert_observations : List ObservationRow → Command
  publish : (channel : String) (payload : String) → Command
  sleep : ℕ → Command

-- The results of the two inserts of one attempt, and whether shutdown fires in the sleep after it.
pub record Attempt : Type 0 where
  pub bodies : Option IngestError
  pub observations : Option IngestError
  pub interrupted : Bool

-- Dead-letter decode failures immediately, and acknowledge each.
unfoldable pub dead_letter_failed : List String → List Command
dead_letter_failed [] = []
dead_letter_failed (id ∷ ids) =
    dead_letter id "decode_error" ∷ ack (id ∷ []) ∷ dead_letter_failed ids

-- `a.and(b)`: both inserts run, and the first error is the result.
abbrev pub result_of : Attempt → Option IngestError
result_of a = elim a.bodies [ some e ↦ some e | none ↦ a.observations ]

-- How the insert loop ended: `still_retrying` where the answers given are used up.
pub data LoopEnd : Type 0 where
  success permanent_failure shut_down still_retrying : LoopEnd

pub record Flush : Type 0 where
  pub outcome : LoopEnd
  pub commands : List Command

abbrev after : List Command → Flush → Flush
after cs f = record { outcome = f.outcome; commands = cs ++ f.commands }

module _ (host : Host) (bodies : List BodyRow) (rows : List ObservationRow) where
  abbrev inserts : List Command
  inserts = insert_bodies bodies ∷ insert_observations rows ∷ []

  -- The loop around the two inserts; `permanent_attempt` counts the permanent errors so far.
  unfoldable pub insert_loop : ℕ → List Attempt → Flush
  unfolding is_transient_error transient_backoff_ms
  insert_loop permanent_attempt [] = record { outcome = still_retrying; commands = [] }
  insert_loop permanent_attempt (a ∷ attempts) = elim (result_of a) [
    | none ↦ record { outcome = success; commands = inserts }
    | some e ↦ elim (is_transient_error host.lower e) [
      | true ↦
          let slept = inserts ++ sleep (transient_backoff_ms permanent_attempt) ∷ [] in
          elim a.interrupted [
            | true ↦ record { outcome = shut_down; commands = slept }
            | false ↦ after slept (insert_loop permanent_attempt attempts)
          ]
      | false ↦ elim (ltb (permanent_attempt + 1) max_retries) [
        | true ↦
            let slept = inserts ++ sleep (100 * 2 ^ (permanent_attempt + 1)) ∷ [] in
            elim a.interrupted [
              | true ↦ record { outcome = shut_down; commands = slept }
              | false ↦ after slept (insert_loop (permanent_attempt + 1) attempts)
            ]
        | false ↦ record { outcome = permanent_failure; commands = inserts }
      ]
    ]
  ]

unfoldable pub status_text : SpanStatus → String
status_text ok = "ok"
status_text error = "error"
status_text timeout = "timeout"

-- The live message of one span; the keys of a `json!` object are in sorted order.
unfoldable pub live_message : External → ObservationRow → Command
unfolding status_text
live_message ext obs = publish (append "halley:live:" (ext.hex_encode obs.run_id)) (
    ext.to_string (
      object (
        field "gen_ai_operation" (string obs.gen_ai_operation) (
          field "model" (string obs.gen_ai_request_model) (
            field "span_id" (string (ext.hex_encode obs.span_id)) (
              field "start_time" (number (ext.int_number (pos obs.start_time)))
                (field "status" (string (status_text obs.status)) end)))))))

dead_letter_batch : List String → List Command
dead_letter_batch [] = []
dead_letter_batch (id ∷ ids) = dead_letter id "insert_error" ∷ dead_letter_batch ids

-- What follows the insert loop.
unfoldable pub settle : External → List Decoded → LoopEnd → List Command
unfolding live_message dead_letter_batch
settle ext ds success = map (live_message ext) (all_obs ds) ++ ack (all_ids ds) ∷ []
settle ext ds permanent_failure = dead_letter_batch (all_ids ds) ++ ack (all_ids ds) ∷ []
settle ext ds shut_down = []
settle ext ds still_retrying = []

abbrev pub settled : External → List Decoded → Flush → Flush
settled ext ds f = record f { commands = f.commands ++ settle ext ds f.outcome }

-- One batch; a batch of which nothing is decoded counts as a success.
unfoldable pub process_batch : Host → List Entry → List Attempt → Flush
unfolding decode_batch dead_letter_failed dedup insert_loop settle
process_batch host entries attempts =
    let (decoded, failed_ids) = decode_batch host entries in
    let letters = dead_letter_failed failed_ids in
    if is_empty decoded
    then record { outcome = success; commands = letters }
    else after letters (
        settled host.ext decoded
          (insert_loop host (dedup [] (all_bodies decoded)) (all_obs decoded) 0 attempts))

-- One turn of the main loop: the shutdown flag, the reply to XREADGROUP (`none` is an error) and the
-- answers to the inserts of the batch.
pub record Turn : Type 0 where
  pub shutdown : Bool
  pub reply : Option (List Entry)
  pub attempts : List Attempt

abbrev pub goes_on : LoopEnd → Bool
goes_on success = true
goes_on permanent_failure = true
goes_on _ = false

unfoldable pub run : Host → List Turn → List Command
unfolding process_batch
run host [] = []
run host (t ∷ turns) = elim t.shutdown [
  | true ↦ []
  | false ↦ elim t.reply [
    | none ↦ sleep 200 ∷ run host turns
    | some entries ↦ elim (is_empty entries) [
      | true ↦ run host turns
      | false ↦
          let f = process_batch host entries t.attempts in
          elim (goes_on f.outcome) [ true ↦ f.commands ++ run host turns | false ↦ f.commands ]
    ]
  ]
]
