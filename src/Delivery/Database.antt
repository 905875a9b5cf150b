-- ===== src/Delivery/Database.antt =====
-- The writer on a database: the answers to its inserts are those of the store's calls
-- (ingester/src/pipeline/writer.rs and ingester/src/storage/clickhouse.rs).
use halley.Common.{
  ℕ, ◌+◌, ◌≡◌, Bool, true, Option, none, some, List, [], ◌∷◌, is_some, arith, if◌then◌else◌,
}
use halley.Domain.Errors.{IngestError, Outcome, ok, err, panic}
use halley.Domain.Rows.{ObservationRow, BodyRow}
use halley.Storage.{Client, insert_bodies as store_bodies, insert_observations_batch}
use halley.Pipeline.Batch.{Host}
use halley.Pipeline.Retry.{is_transient_error}
use halley.Pipeline.Writer.{
  Attempt, success, result_of, insert_loop, Command, dead_letter, ack, insert_bodies,
  insert_observations, publish, sleep,
}

-- An insert does not panic.
abbrev pub error_of : Outcome (Unit {0}) → Option IngestError
error_of (ok u) = none
error_of (err e) = some e
error_of panic = none

module _ {S : Type 0} (bodies_client : Client S BodyRow)
    (rows_client : Client S ObservationRow) where
  -- What a command does to the database.
  abbrev pub executed : Command → S → S
  executed (insert_bodies bodies) s = (store_bodies bodies_client bodies s).1
  executed (insert_observations rows) s = (insert_observations_batch rows_client rows s).1
  executed (dead_letter id reason) s = s
  executed (ack ids) s = s
  executed (publish channel payload) s = s
  executed (sleep ms) s = s

  unfoldable pub execute : List Command → S → S
  execute [] s = s
  execute (c ∷ cs) s = execute cs (executed c s)

  -- The answers of the database to the attempts of the insert loop, given which of the sleeps between
  -- them a shutdown interrupts.
  module _ (bodies : List BodyRow) (rows : List ObservationRow) where
    abbrev pub attempt_in : (interrupted : Bool) → S → Attempt
    attempt_in interrupted s =
        let (b, s') = store_bodies bodies_client bodies s in
        record {
          bodies = error_of b;
          observations = error_of (insert_observations_batch rows_client rows s').0;
          interrupted = interrupted;
        }

    abbrev pub after_attempt : S → S
    after_attempt s = execute (insert_bodies bodies ∷ insert_observations rows ∷ []) s

    unfoldable pub attempts_in : (interrupts : List Bool) → S → List Attempt
    unfolding execute
    attempts_in [] s = []
    attempts_in (interrupted ∷ interrupts) s =
        attempt_in interrupted s ∷ attempts_in interrupts (after_attempt s)

    module _ (host : Host) where
      pub inserted_lem :
          (n : ℕ) (a : Attempt) (attempts : List Attempt) (s : S)
          → result_of a ≡ none
          → execute (insert_loop host bodies rows n (a ∷ attempts)).commands s ≡ after_attempt s
      unfolding insert_loop execute
      inserted_lem n a attempts s e = ground arith

      -- The permanent errors after an attempt, where `n` came before it.
      abbrev pub errors_after : Option IngestError → ℕ → ℕ
      errors_after none n = n
      errors_after (some e) n = if is_transient_error host.lower e then n else n + 1

      pub later_success :
          (n : ℕ) (a : Attempt) (attempts : List Attempt)
          → is_some (result_of a) ≡ true
          → (insert_loop host bodies rows n (a ∷ attempts)).outcome ≡ success
          → (insert_loop host bodies rows (errors_after (result_of a) n) attempts).outcome ≡ success
      unfolding insert_loop
      later_success n a attempts failed e = ground arith

      pub later_commands :
          (n : ℕ) (a : Attempt) (attempts : List Attempt) (s : S)
          → is_some (result_of a) ≡ true
          → (insert_loop host bodies rows n (a ∷ attempts)).outcome ≡ success
          → execute (insert_loop host bodies rows n (a ∷ attempts)).commands s
            ≡ execute
                (insert_loop host bodies rows (errors_after (result_of a) n) attempts).commands
                (after_attempt s)
      unfolding insert_loop execute
      later_commands n a attempts s failed e = ground arith
