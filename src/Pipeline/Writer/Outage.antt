-- ===== src/Pipeline/Writer/Outage.antt =====
-- The insert loop while the database cannot be reached.
use halley.Common.{◌≡◌, refl, true, false, some, List, [], ◌∷◌, All, arith}
use halley.Domain.Errors.{IngestError}
use halley.Domain.Rows.{ObservationRow, BodyRow}
use halley.Pipeline.Retry.{is_transient_error, transient_backoff_ms}
use halley.Pipeline.Batch.{Host}
use halley.Pipeline.Writer.{
  Attempt, still_retrying, result_of, insert_loop, Command, insert_bodies, insert_observations,
  sleep,
}

-- The attempt failed with a transient error, and no shutdown came in the sleep after it.
pub record IsOutage (host : Host) (a : Attempt) : Type 0 where
  pub error : IngestError
  pub failed : result_of a ≡ some error
  pub transient : is_transient_error host.lower error ≡ true
  pub slept : a.interrupted ≡ false

abbrev pub rounds : List BodyRow → List ObservationRow → List Attempt → List Command
rounds bodies rows [] = []
rounds bodies rows (a ∷ attempts) =
    insert_bodies bodies ∷ insert_observations rows ∷ sleep 200 ∷ rounds bodies rows attempts

-- While every error is transient, the loop does not end, each attempt inserts both the bodies and the
-- observations again, and every sleep is 200 ms long, however many attempts there were.
pub insert_loop_outage :
    (host : Host) (bodies : List BodyRow) (rows : List ObservationRow) (attempts : List Attempt)
    → All (IsOutage host) attempts
    → insert_loop host bodies rows 0 attempts
      ≡ record { outcome = still_retrying; commands = rounds bodies rows attempts }
unfolding insert_loop transient_backoff_ms
insert_loop_outage host bodies rows [] all = refl
insert_loop_outage host bodies rows (a ∷ attempts) (h, all) =
    ground (arith, h.failed, h.transient, h.slept, insert_loop_outage host bodies rows attempts all)
