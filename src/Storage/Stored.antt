-- ===== src/Storage/Stored.antt =====
-- What a successful insert into ClickHouse leaves in the table.
use mathlib.Core.List.{append_assoc, append-nil}
use halley.Common.{String, ◌≡◌, refl, sym, ap, ◌∙◌, Option, none, some, List, [], ◌∷◌, ◌++◌}
use halley.Domain.Errors.{Outcome, ok, err, panic}
use halley.Storage.{Client, insert_batch, write_rows, and_then_do}

-- What the client is relied on for, where its calls have no error: `stored` are the rows that inserts
-- have added to the table so far, and `pending` those written since the last insert began. An insert
-- begins with no row, a row that is written is pending, and the end of the insert adds the pending
-- rows. Of a call with an error nothing is assumed: it may have added some of the rows.
pub record IsClient {S Row : Type 0} (client : Client S Row) (table : String)
    (stored pending : S → List Row) : Type 0 where
  pub inserts : (s : S) → (client.insert table s).0 ≡ none → pending (client.insert table s).1 ≡ []
  pub writes :
      (row : Row) (s : S)
      → (client.write row s).0 ≡ none
      → pending (client.write row s).1 ≡ pending s ++ row ∷ []
  pub finishes :
      (s : S) → (client.finish s).0 ≡ none → stored (client.finish s).1 ≡ stored s ++ pending s

-- The rows are the last of the table, where the insert has no error.
abbrev pub AreLast :
    {S Row : Type 0} → (S → List Row) → (rows : List Row) → Outcome (Unit {0}) × S → Type 0
AreLast {Row = Row} stored rows (ok u, s) = (old : List Row) × (stored s ≡ old ++ rows)
AreLast stored rows (err e, s) = Unit
AreLast stored rows (panic, s) = ⊥

module _ {S Row : Type 0} (client : Client S Row) (table : String) (stored pending : S → List Row)
    (lawful : IsClient client table stored pending) (name : String) where
  -- A call, and what follows it where it has no error.
  step_lem :
      (step : String) (r : Option String × S) (rows : List Row)
      → (next : S → Outcome (Unit {0}) × S) → (r.0 ≡ none → AreLast stored rows (next r.1))
      → AreLast stored rows (and_then_do name step r next)
  step_lem step (none, s) rows next h = h refl
  step_lem step (some e, s) rows next h = tt

  -- Of rows of which those before `rows` are pending.
  write_rows-AreLast :
      (whole rows : List Row) (s : S)
      → pending s ++ rows ≡ whole
      → AreLast stored whole (write_rows client name rows s)
  unfolding write_rows
  write_rows-AreLast whole [] s pends =
      step_lem "end" (client.finish s) whole (λ s'. (ok tt, s'))
        (λ done. (
          stored s,
          lawful.finishes s done
              ∙ ap (λ rows. stored s ++ rows) (sym (append-nil (pending s)) ∙ pends),
        ))
  write_rows-AreLast whole (row ∷ rows) s pends =
      step_lem "write" (client.write row s) whole (write_rows client name rows) (λ written.
        write_rows-AreLast whole rows (client.write row s).1 (
          ap (λ before. before ++ rows) (lawful.writes row s written)
          ∙ append_assoc (pending s) (row ∷ []) rows
          ∙ pends))

  pub insert_batch-AreLast :
      (rows : List Row) (s : S) → AreLast stored rows (insert_batch client name table rows s)
  unfolding insert_batch
  insert_batch-AreLast [] s = (stored s, sym (append-nil (stored s)))
  insert_batch-AreLast (row ∷ rows) s =
      step_lem "prepare" (client.insert table s) (row ∷ rows) (write_rows client name (row ∷ rows))
        (λ started.
          write_rows-AreLast (row ∷ rows) (row ∷ rows) (client.insert table s).1
            (ap (λ before. before ++ row ∷ rows) (lawful.inserts s started)))
