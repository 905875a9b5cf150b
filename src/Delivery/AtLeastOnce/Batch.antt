-- ===== src/Delivery/AtLeastOnce/Batch.antt =====
-- What the database holds when a batch is acknowledged.
use mathlib.Core.Path.{subst}
use halley.Common.{
  ◌≡◌, refl, sym, ap, ◌∙◌, String, Bool, true, false, List, [], ◌∷◌, ◌++◌, map, is_empty,
  if◌then◌else◌,
}
use halley.Domain.Rows.{ObservationRow, BodyRow}
use halley.Storage.{Client}
use halley.External.{External}
use halley.Pipeline.Batch.{Host, Entry, Decoded, decode_batch, dedup, all_bodies, all_obs, all_ids}
use halley.Pipeline.Writer.{
  Attempt, Flush, Command, ack, success, insert_loop, dead_letter_failed, live_message, settle,
  settled, process_batch,
}
use halley.Delivery.Database.{executed, execute, attempts_in}
use halley.Delivery.AtLeastOnce.{IsDatabase, EndsWith, loop_lem}

module _ {S : Type 0} (bodies_client : Client S BodyRow) (rows_client : Client S ObservationRow)
    (stored_bodies pending_bodies : S → List BodyRow)
    (stored_rows pending_rows : S → List ObservationRow) where
  execute-append :
      (cs ds : List Command) (s : S)
      → execute bodies_client rows_client (cs ++ ds) s
        ≡ execute bodies_client rows_client ds (execute bodies_client rows_client cs s)
  unfolding execute
  execute-append [] ds s = refl
  execute-append (c ∷ cs) ds s = execute-append cs ds (executed bodies_client rows_client c s)

  -- Neither the dead-letter queue nor the live messages nor an acknowledgement touch the database.
  letters_lem :
      (ids : List String) (s : S) → execute bodies_client rows_client (dead_letter_failed ids) s ≡ s
  unfolding execute dead_letter_failed
  letters_lem [] s = refl
  letters_lem (id ∷ ids) s = letters_lem ids s

  live_lem :
      (ext : External) (rows : List ObservationRow) (ids : List String) (s : S)
      → execute bodies_client rows_client (map (live_message ext) rows ++ ack ids ∷ []) s ≡ s
  unfolding execute live_message
  live_lem ext [] ids s = refl
  live_lem ext (row ∷ rows) ids s = live_lem ext rows ids s

  settled_lem :
      (ext : External) (ds : List Decoded) (f : Flush) (s : S)
      → f.outcome ≡ success
      → execute bodies_client rows_client (settled ext ds f).commands s
        ≡ execute bodies_client rows_client f.commands s
  unfolding settle
  settled_lem ext ds f s e =
      execute-append f.commands (settle ext ds f.outcome) s
      ∙ rw e
          (live_lem ext (all_obs ds) (all_ids ds) (execute bodies_client rows_client f.commands s))

  module _
      (database : IsDatabase bodies_client rows_client stored_bodies pending_bodies stored_rows
        pending_rows)
      (host : Host) where
    abbrev answers : List Decoded → List Bool → S → List Attempt
    answers ds interrupts s =
        attempts_in bodies_client rows_client (dedup [] (all_bodies ds)) (all_obs ds) interrupts s

    -- What is done for the entries of a batch that are decoded.
    abbrev flushed : List Decoded → List String → List Attempt → Flush
    flushed ds failed attempts =
        let f =
          settled host.ext ds
            (insert_loop host (dedup [] (all_bodies ds)) (all_obs ds) 0 attempts) in
        record { outcome = f.outcome; commands = dead_letter_failed failed ++ f.commands }

    chosen_lem : (empty : Bool) (f g : Flush) → empty ≡ false → (if empty then f else g) ≡ g
    chosen_lem true f g e = cc
    chosen_lem false f g e = refl

    batch_lem :
        (entries : List Entry) (attempts : List Attempt)
        → is_empty (decode_batch host entries).0 ≡ false
        → process_batch host entries attempts
          ≡ flushed (decode_batch host entries).0 (decode_batch host entries).1 attempts
    unfolding process_batch
    batch_lem entries attempts some_decoded = chosen_lem _ _ _ some_decoded

    flushed_lem :
        (ds : List Decoded) (failed : List String) (interrupts : List Bool) (s : S)
        → (flushed ds failed (answers ds interrupts s)).outcome ≡ success
        → EndsWith bodies_client rows_client stored_bodies pending_bodies stored_rows pending_rows
            (dedup [] (all_bodies ds))
            (all_obs ds)
            (execute bodies_client rows_client
              (flushed ds failed (answers ds interrupts s)).commands
              s)
    flushed_lem ds failed interrupts s e =
        let bodies = dedup [] (all_bodies ds) in
        let f = insert_loop host bodies (all_obs ds) 0 (answers ds interrupts s) in
        subst
          (EndsWith bodies_client rows_client stored_bodies pending_bodies stored_rows pending_rows
            bodies (all_obs ds))
          (sym (
            execute-append (dead_letter_failed failed) (settled host.ext ds f).commands s
            ∙ ap (execute bodies_client rows_client (settled host.ext ds f).commands)
                (letters_lem failed s)
            ∙ settled_lem host.ext ds f s e))
          (loop_lem bodies_client rows_client stored_bodies pending_bodies stored_rows pending_rows
            database host bodies (all_obs ds) 0 interrupts s e)

    -- On a database whose calls without an error do what is documented: an insert begins, a row is
    -- written, and the end adds the rows written to the table; and of which inserts of observations leave
    -- the bodies alone. Of a batch of which an entry at least is decoded, whose inserts that database
    -- answers, and which is a success: when its commands are done, the last rows added to the
    -- observations are those of all its decoded entries, in their order, and the last rows added to the
    -- bodies are those of its entries, one for each hash.
    pub process_batch-EndsWith :
        (entries : List Entry) (interrupts : List Bool) (s : S)
        → let ds = (decode_batch host entries).0 in
          let flush = process_batch host entries (answers ds interrupts s) in
          is_empty ds ≡ false
          → flush.outcome ≡ success
          → EndsWith bodies_client rows_client stored_bodies pending_bodies stored_rows pending_rows
              (dedup [] (all_bodies ds))
              (all_obs ds)
              (execute bodies_client rows_client flush.commands s)
    process_batch-EndsWith entries interrupts s some_decoded e =
        let ds = (decode_batch host entries).0 in
        let same = batch_lem entries (answers ds interrupts s) some_decoded in
        subst
          (λ flush.
            EndsWith bodies_client rows_client stored_bodies pending_bodies stored_rows pending_rows
              (dedup [] (all_bodies ds)) (all_obs ds)
              (execute bodies_client rows_client flush.commands s))
          (sym same)
          (flushed_lem ds (decode_batch host entries).1 interrupts s
            (subst (λ flush. flush.outcome ≡ success) same e))
