-- ===== src/Storage.antt =====
-- The ClickHouse store and the readiness of the service: ingester/src/storage/clickhouse.rs and
-- ingester/src/http/health.rs.
pub mod Stored
pub mod Apart
use Prim.Native.String.{◌++◌ as append}
use halley.Common.{ℕ, String, true, false, Option, none, some, List, [], ◌∷◌}
use halley.Domain.Errors.{IngestError, storage, Outcome, ok, err}
use halley.Domain.Rows.{ObservationRow, BodyRow}
use halley.Json.{Value, object, field, end, string, bool}

-- The inserter of the `clickhouse` crate for one kind of rows, and the state of the database that its
-- calls change; each call answers with the text of its error, if there is one.
pub record Client (S Row : Type 0) : Type 0 where
  pub insert : (table : String) → S → Option String × S
  pub write : Row → S → Option String × S
  pub finish : S → Option String × S

abbrev step_error : (name step e : String) → IngestError
step_error name step e = storage (append name (append " " (append step (append ": " e))))

-- A call, and what is done after it where it has no error.
abbrev and_then_do :
    {S : Type 0}
    → (name step : String) → Option String × S
    → (S → Outcome (Unit {0}) × S)
    → Outcome (Unit {0}) × S
and_then_do name step (none, s) next = next s
and_then_do name step (some e, s) next = (err (step_error name step e), s)

module _ {S Row : Type 0} (client : Client S Row) (name : String) where
  write_rows : List Row → S → Outcome (Unit {0}) × S
  write_rows [] s = and_then_do name "end" (client.finish s) λ s'. (ok tt, s')
  write_rows (row ∷ rows) s = and_then_do name "write" (client.write row s) (write_rows rows)

  -- An insert of rows, which is the same code for each table.
  unfoldable pub insert_batch : (table : String) → List Row → S → Outcome (Unit {0}) × S
  unfolding write_rows
  insert_batch table [] s = (ok tt, s)
  insert_batch table (row ∷ rows) s =
      and_then_do name "prepare" (client.insert table s) (write_rows (row ∷ rows))

-- The three inserts of the store.
module _ {S : Type 0} where
  abbrev pub insert_bodies : Client S BodyRow → List BodyRow → S → Outcome (Unit {0}) × S
  insert_bodies client rows s = insert_batch client "insert_bodies" "observation_body" rows s

  abbrev pub insert_observation :
      Client S ObservationRow → ObservationRow → S → Outcome (Unit {0}) × S
  insert_observation client row s =
      insert_batch client "insert_observation" "observations" (row ∷ []) s

  abbrev pub insert_observations_batch :
      Client S ObservationRow → List ObservationRow → S → Outcome (Unit {0}) × S
  insert_observations_batch client rows s =
      insert_batch client "insert_observations_batch" "observations" rows s

-- The answer to `SELECT 1`, within two seconds or not.
pub data Pinged : Type 0 where
  answered timed_out : Pinged
  failed : (e : String) → Pinged

-- `ping`, none for success.
unfoldable pub ping_error : Pinged → Option String
ping_error answered = none
ping_error (failed e) = some (append "clickhouse error: " e)
ping_error timed_out = some "clickhouse ping timed out"

abbrev ready_response : Option String → ℕ × Value
ready_response none = (200, object (field "ready" (bool true) end))
ready_response (some reason) = (
  503,
  object (
      field "dependency" (string "clickhouse")
        (field "error" (string reason) (field "ready" (bool false) end))),
)

unfoldable pub readyz : Pinged → ℕ × Value
unfolding ping_error
readyz pinged = ready_response (ping_error pinged)

abbrev healthz : ℕ × String
healthz = (200, "ok")
