-- ===== src/Tests/Warehouse.antt =====
-- The writer on a database with two tables, of which one refuses an insert after a part of it.
use halley.Common.{
  ℕ, zero, suc, ◌≡◌, refl, String, false, Option, none, some, List, [], ◌∷◌, ◌++◌, is_empty, take,
}
use halley.Domain.Rows.{ObservationRow, BodyRow}
use halley.Storage.{Client}
use halley.Pipeline.Batch.{decode_batch, dedup, all_bodies, all_obs}
use halley.Pipeline.Writer.{Attempt, success, process_batch}
use halley.Delivery.Database.{execute, attempts_in}
use halley.Delivery.AtLeastOnce.{IsDatabase, EndsWith}
use halley.Delivery.AtLeastOnce.Batch.{process_batch-EndsWith}
use halley.Tests.Batches.{test_host, two_entries}

-- The rows of the tables, those pending, and how often observations are still refused.
record Warehouse : Type 0 where
  pub bodies : List BodyRow
  pub pending_bodies : List BodyRow
  pub rows : List ObservationRow
  pub pending_rows : List ObservationRow
  pub refusals : ℕ

abbrev bodies_client : Client Warehouse BodyRow
bodies_client = record {
  insert = λ table s. (none, record s { pending_bodies = [] });
  write = λ row s. (none, record s { pending_bodies = s.pending_bodies ++ row ∷ [] });
  finish = λ s. (none, record s { bodies = s.bodies ++ s.pending_bodies });
}

abbrev finished : ℕ → Warehouse → Option String × Warehouse
finished zero s = (none, record s { rows = s.rows ++ s.pending_rows })
finished (suc n) s =
    (some "network", record s { rows = s.rows ++ take 1 s.pending_rows; refusals = n })

abbrev rows_client : Client Warehouse ObservationRow
rows_client = record {
  insert = λ table s. (none, record s { pending_rows = [] });
  write = λ row s. (none, record s { pending_rows = s.pending_rows ++ row ∷ [] });
  finish = λ s. finished s.refusals s;
}

finished_lem :
    (n : ℕ) (s : Warehouse)
    → (finished n s).0 ≡ none
    → (finished n s).1.rows ≡ s.rows ++ s.pending_rows
finished_lem zero s e = refl
finished_lem (suc n) s e = cc

apart_lem : (n : ℕ) (s : Warehouse) → (finished n s).1.bodies ≡ s.bodies
apart_lem zero s = refl
apart_lem (suc n) s = refl

test_warehouse-IsDatabase :
    IsDatabase bodies_client rows_client
      (λ s. s.bodies)
      (λ s. s.pending_bodies)
      (λ s. s.rows)
      (λ s. s.pending_rows)
test_warehouse-IsDatabase = record {
  bodies_lawful = record {
    inserts = λ s e. refl;
    writes = λ row s e. refl;
    finishes = λ s e. refl;
  };
  rows_lawful = record {
    inserts = λ s e. refl;
    writes = λ row s e. refl;
    finishes = λ s e. finished_lem s.refusals s e;
  };
  bodies_apart = record {
    insert_keeps = λ table s. refl;
    write_keeps = λ row s. refl;
    finish_keeps = λ s. apart_lem s.refusals s;
  };
}

abbrev test_warehouse : Warehouse
test_warehouse = record {
  bodies = [];
  pending_bodies = [];
  rows = [];
  pending_rows = [];
  refusals = 1;
}

some_decoded : is_empty (decode_batch test_host two_entries).0 ≡ false
unfolding decode_batch
some_decoded = refl

abbrev two_attempts : List Attempt
two_attempts =
    attempts_in bodies_client rows_client
      (dedup [] (all_bodies (decode_batch test_host two_entries).0))
      (all_obs (decode_batch test_host two_entries).0) (false ∷ false ∷ []) test_warehouse

stored_test : (process_batch test_host two_entries two_attempts).outcome ≡ success
unfolding process_batch attempts_in halley.Storage.insert_batch halley.Domain.Span.raw_rows
stored_test = refl

process_batch-EndsWith_example :
    EndsWith bodies_client rows_client
      (λ s. s.bodies)
      (λ s. s.pending_bodies)
      (λ s. s.rows)
      (λ s. s.pending_rows)
      (dedup [] (all_bodies (decode_batch test_host two_entries).0))
      (all_obs (decode_batch test_host two_entries).0)
      (execute bodies_client rows_client
        (process_batch test_host two_entries two_attempts).commands
        test_warehouse)
process_batch-EndsWith_example =
    process_batch-EndsWith bodies_client rows_client (λ s. s.bodies) (λ s. s.pending_bodies)
      (λ s. s.rows) (λ s. s.pending_rows) test_warehouse-IsDatabase test_host two_entries
      (false ∷ false ∷ []) test_warehouse some_decoded stored_test
