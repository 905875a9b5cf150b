-- ===== src/Delivery/AtLeastOnce.antt =====
-- What the database holds when the insert loop is done.
pub mod Batch
use mathlib.Core.Path.{subst}
use mathlib.Core.List.{append_assoc}
use halley.Common.{
  ℕ, ◌+◌, ◌≡◌, ◌≢◌, refl, sym, ap, ◌∙◌, String, Bool, true, false, Option, none, some, List, [],
  ◌∷◌, ◌++◌, is_some, arith, Option-cases, inl, inr, map, is_empty, if◌then◌else◌,
}
use halley.Domain.Errors.{IngestError, Outcome, ok, err, panic}
use halley.Domain.Rows.{ObservationRow, BodyRow}
use halley.Storage.{Client, insert_batch}
use halley.Storage.Stored.{IsClient, AreLast, insert_batch-AreLast}
use halley.Storage.Apart.{IsApart, insert_batch_keeps}
use halley.External.{External}
use halley.Pipeline.Batch.{Host, Entry, Decoded, decode_batch, dedup, all_bodies, all_obs, all_ids}
use halley.Pipeline.Writer.{
  Attempt, Flush, Command, ack, success, result_of, insert_loop, dead_letter_failed, live_message,
  settle, settled, process_batch,
}
use halley.Delivery.Database.{
  error_of, executed, execute, attempts_in, attempt_in, after_attempt, errors_after, inserted_lem,
  later_success, later_commands,
}

module _ {S : Type 0} (bodies_client : Client S BodyRow) (rows_client : Client S ObservationRow)
    (stored_bodies pending_bodies : S → List BodyRow)
    (stored_rows pending_rows : S → List ObservationRow) where
  -- A database with the two tables, of which the inserts into one leave the other alone.
  pub record IsDatabase : Type 0 where
    pub bodies_lawful : IsClient bodies_client "observation_body" stored_bodies pending_bodies
    pub rows_lawful : IsClient rows_client "observations" stored_rows pending_rows
    pub bodies_apart : IsApart rows_client stored_bodies

  -- The last rows of the tables.
  pub record EndsWith (bodies : List BodyRow) (rows : List ObservationRow) (s : S) : Type 0 where
    pub older_bodies : List BodyRow
    pub older_rows : List ObservationRow
    pub bodies_end : stored_bodies s ≡ older_bodies ++ bodies
    pub rows_end : stored_rows s ≡ older_rows ++ rows

  module _ (database : IsDatabase) (host : Host) (bodies : List BodyRow)
      (rows : List ObservationRow) where
    last_lem :
        {Row : Type 0} (stored : S → List Row) (rows : List Row) (r : Outcome (Unit {0}) × S)
        → AreLast stored rows r
        → error_of r.0 ≡ none
        → (old : List Row) × (stored r.1 ≡ old ++ rows)
    last_lem stored rows (ok u, s) last e = last
    last_lem stored rows (err error, s) last e = cc
    last_lem stored rows (panic, s) last e = absurd last

    both_none : (a : Attempt) → result_of a ≡ none → (a.bodies ≡ none) × (a.observations ≡ none)
    both_none a e = (ground arith, ground arith)

    attempt_lem :
        (interrupted : Bool) (s : S)
        → result_of (attempt_in bodies_client rows_client bodies rows interrupted s) ≡ none
        → EndsWith bodies rows (after_attempt bodies_client rows_client bodies rows s)
    unfolding execute
    attempt_lem interrupted s e =
        let a = attempt_in bodies_client rows_client bodies rows interrupted s in
        let (bodies_well, rows_well) = both_none a e in
        let r = insert_batch bodies_client "insert_bodies" "observation_body" bodies s in
        let q = insert_batch rows_client "insert_observations_batch" "observations" rows r.1 in
        let (older_bodies, bodies_end) =
          last_lem stored_bodies bodies r
            (insert_batch-AreLast bodies_client "observation_body" stored_bodies pending_bodies
              database.bodies_lawful "insert_bodies" bodies s)
            bodies_well in
        let (older_rows, rows_end) =
          last_lem stored_rows rows q
            (insert_batch-AreLast rows_client "observations" stored_rows pending_rows
              database.rows_lawful "insert_observations_batch" rows r.1)
            rows_well in
        record {
          older_bodies = older_bodies;
          older_rows = older_rows;
          bodies_end =
              insert_batch_keeps rows_client stored_bodies database.bodies_apart
                "insert_observations_batch" "observations" rows r.1
              ∙ bodies_end;
          rows_end = rows_end;
        }

    untried : (n : ℕ) → (insert_loop host bodies rows n []).outcome ≢ success
    unfolding insert_loop
    untried n e = cc

    pub loop_lem :
        (n : ℕ) (interrupts : List Bool) (s : S)
        → (insert_loop host bodies rows n
            (attempts_in bodies_client rows_client bodies rows interrupts s)).outcome
          ≡ success
        → EndsWith bodies rows (
            execute bodies_client rows_client
              (insert_loop host bodies rows n
                (attempts_in bodies_client rows_client bodies rows interrupts s)).commands
              s)
    unfolding attempts_in
    loop_lem n [] s e = absurd (untried n e)
    loop_lem n (interrupted ∷ interrupts) s e =
        let a = attempt_in bodies_client rows_client bodies rows interrupted s in
        let s' = after_attempt bodies_client rows_client bodies rows s in
        let attempts = attempts_in bodies_client rows_client bodies rows interrupts s' in
        elim (Option-cases (result_of a)) [
          | inl well ↦
              subst (EndsWith bodies rows)
                (sym (inserted_lem bodies_client rows_client bodies rows host n a attempts s well))
                (attempt_lem interrupted s well)
          | inr (error, ill) ↦
              let failed : is_some (result_of a) ≡ true = ap is_some ill in
              subst (EndsWith bodies rows)
                (sym (
                  later_commands bodies_client rows_client bodies rows host n a attempts s failed
                    e))
                (loop_lem (errors_after bodies_client rows_client bodies rows host (result_of a) n)
                  interrupts s'
                  (later_success bodies_client rows_client bodies rows host n a attempts failed e))
        ]
