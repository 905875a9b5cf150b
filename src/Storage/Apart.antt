-- ===== src/Storage/Apart.antt =====
-- What an insert into one table leaves alone.
use halley.Common.{◌≡◌, refl, ◌∙◌, String, Option, none, some, List, [], ◌∷◌}
use halley.Domain.Errors.{Outcome, ok}
use halley.Storage.{Client, insert_batch, write_rows, and_then_do}

-- No call of the client changes what is looked at.
pub record IsApart {S Row A : Type 0} (client : Client S Row) (view : S → A) : Type 0 where
  pub insert_keeps : (table : String) (s : S) → view (client.insert table s).1 ≡ view s
  pub write_keeps : (row : Row) (s : S) → view (client.write row s).1 ≡ view s
  pub finish_keeps : (s : S) → view (client.finish s).1 ≡ view s

module _ {S Row A : Type 0} (client : Client S Row) (view : S → A) (apart : IsApart client view)
    (name : String) where
  step_lem :
      (step : String) (r : Option String × S) (old : A)
      → (next : S → Outcome (Unit {0}) × S) → view r.1 ≡ old
      → ((s : S) → view (next s).1 ≡ view s)
      → view (and_then_do name step r next).1 ≡ old
  step_lem step (none, s) old next keeps h = h s ∙ keeps
  step_lem step (some e, s) old next keeps h = keeps

  write_rows_keeps : (rows : List Row) (s : S) → view (write_rows client name rows s).1 ≡ view s
  unfolding write_rows
  write_rows_keeps [] s =
      step_lem "end" (client.finish s) (view s) (λ s'. (ok tt, s')) (apart.finish_keeps s)
        (λ s'. refl)
  write_rows_keeps (row ∷ rows) s =
      step_lem "write" (client.write row s) (view s) (write_rows client name rows)
        (apart.write_keeps row s) (write_rows_keeps rows)

  pub insert_batch_keeps :
      (table : String) (rows : List Row) (s : S)
      → view (insert_batch client name table rows s).1 ≡ view s
  unfolding insert_batch
  insert_batch_keeps table [] s = refl
  insert_batch_keeps table (row ∷ rows) s =
      step_lem "prepare" (client.insert table s) (view s) (write_rows client name (row ∷ rows))
        (apart.insert_keeps table s) (write_rows_keeps (row ∷ rows))
