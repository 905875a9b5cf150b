-- ===== src/Delivery/Delivered.antt =====
-- What becomes of the spans that the receiver has accepted.
use mathlib.Core.Path.{subst}
use halley.Common.{ℕ, ◌≡◌, refl, ap, ◌∙◌, String, none, List, [], ◌∷◌, ◌++◌, map, All, arith}
use halley.External.{Uuid}
use halley.Domain.Errors.{Outcome, ok}
use halley.Domain.Rows.{ObservationRow, BodyRow}
use halley.Domain.Span.{RawSpan}
use halley.Receiver.Ingest.{Stored}
use halley.Receiver.Ingest.Owned.{IsOwned}
use halley.Receiver.Handlers.{Server, State, post_span}
use halley.Receiver.Handlers.Posted.{LetsIn, IsPosted, post_span-IsPosted}
use halley.Pipeline.Batch.{Host, dedup, all_bodies, all_obs, all_ids}
use halley.Pipeline.Writer.{
  Attempt, success, result_of, insert_loop, Command, insert_bodies, insert_observations, ack,
  live_message, process_batch, dead_letter_failed, settle, settled,
}
use halley.Pipeline.Retry.{transient_backoff_ms}
use halley.Pipeline.Writer.Outage.{IsOutage, rounds}
use halley.Delivery.{ReadsBack, Published, entry_of, decoded_of, decode_batch-entry_of}

recovered_lem :
    (host : Host) (bodies : List BodyRow) (rows : List ObservationRow) (outage : List Attempt)
    (a : Attempt) (rest : List Attempt)
    → All (IsOutage host) outage
    → result_of a ≡ none
    → insert_loop host bodies rows 0 (outage ++ a ∷ rest) ≡ record {
      outcome = success;
      commands =
          rounds bodies rows outage ++ (insert_bodies bodies ∷ insert_observations rows ∷ []);
    }
unfolding insert_loop transient_backoff_ms
recovered_lem host bodies rows [] a rest all well = ground (arith, well)
recovered_lem host bodies rows (o ∷ outage) a rest (h, all) well =
    ground
      (arith, h.failed, h.transient, h.slept, recovered_lem host bodies rows outage a rest all well)

module _ (host : Host) (serialize : Stored → List ℕ) where
  abbrev pub observations_of : List Published → List ObservationRow
  observations_of [] = []
  observations_of ((id, (obs, bodies)) ∷ published) = obs ∷ observations_of published

  abbrev pub bodies_of : List Published → List BodyRow
  bodies_of [] = []
  bodies_of ((id, (obs, bodies)) ∷ published) = bodies ++ bodies_of published

  abbrev pub ids_of : List Published → List String
  ids_of [] = []
  ids_of ((id, row) ∷ published) = id ∷ ids_of published

  decoded_lem :
      (published : List Published)
      → (all_obs (map (decoded_of host serialize) published) ≡ observations_of published)
        × (all_bodies (map (decoded_of host serialize) published) ≡ bodies_of published)
        × (all_ids (map (decoded_of host serialize) published) ≡ ids_of published)
  decoded_lem [] = (refl, refl, refl)
  decoded_lem ((id, (obs, bodies)) ∷ published) =
      let (o, b, i) = decoded_lem published in
      (ap (λ l. obs ∷ l) o, ap (λ l. bodies ++ l) b, ap (λ l. id ∷ l) i)

  -- The commands for a batch that is inserted at last: the attempts of the outage, the last attempt, the
  -- live messages and one acknowledgement of all the entries.
  abbrev pub delivery : List Published → List Attempt → List Command
  delivery published outage =
      let bodies = dedup [] (bodies_of published) in
      let rows = observations_of published in
      (rounds bodies rows outage ++ (insert_bodies bodies ∷ insert_observations rows ∷ []))
      ++ (map (live_message host.ext) rows ++ ack (ids_of published) ∷ [])

  -- A batch of published rows that read back, after any finite outage without a shutdown and once both inserts succeed:
  -- the batch is a success, the last attempt inserted all its observations, in order, and each of its
  -- bodies, one live message went out for each observation, and one acknowledgement for all its entries,
  -- of which none went to the dead-letter queue.
  pub process_batch-delivery :
      (p : Published) (published : List Published) (outage : List Attempt) (a : Attempt)
      (rest : List Attempt)
      → All (IsOutage host) outage
      → result_of a ≡ none
      → All (λ q. ReadsBack host serialize q.1) (p ∷ published)
      → process_batch host (map (entry_of host serialize) (p ∷ published)) (outage ++ a ∷ rest)
        ≡ record { outcome = success; commands = delivery (p ∷ published) outage }
  unfolding process_batch dead_letter_failed settle
  process_batch-delivery p published outage a rest all well back =
      let (o, b, i) = decoded_lem published in
      rw (decode_batch-entry_of host serialize (p ∷ published) back) (
        rw (o, b)
          (ap (settled host.ext (map (decoded_of host serialize) (p ∷ published))) (
              recovered_lem host (dedup [] (bodies_of (p ∷ published)))
                (observations_of (p ∷ published)) outage a rest all well)
            ∙ rw (o, i) refl))

  All-last :
      (stream : List Stored) (row : Stored)
      → All (ReadsBack host serialize) (stream ++ row ∷ [])
      → ReadsBack host serialize row
  All-last [] row (b, all) = b
  All-last (r ∷ stream) row (b, all) = All-last stream row all

  -- A span that the JSON handler has answered with a success comes to the database: it made one row,
  -- owned by a project that the header let it in for and added to the end of the stream; where the rows of the stream read back, whatever id
  -- the stream gave that row, a batch of it is inserted and acknowledged after any finite outage without
  -- a shutdown, once both inserts succeed.
  pub post_span-delivery :
      (server : Server) (header : String) (now n : ℕ) (raw : RawSpan) (state state' : State)
      → post_span server header now raw state ≡ (ok n, state')
      → All (ReadsBack host serialize) state'.stream
      → (id : String) (outage : List Attempt) (a : Attempt) (rest : List Attempt)
      → All (IsOutage host) outage
      → result_of a ≡ none
      → (u : Uuid) × (row : Stored) × LetsIn server header state u state'.cache
        × IsOwned u row
        × (state'.stream ≡ state.stream ++ row ∷ [])
        × (process_batch host (entry_of host serialize (id, row) ∷ []) (outage ++ a ∷ rest)
            ≡ record { outcome = success; commands = delivery ((id, row) ∷ []) outage })
  post_span-delivery server header now n raw state state' e back id outage a rest all well =
      let (one, (u, row, lets, owned, added)) =
        subst (λ (r : Outcome ℕ × State). IsPosted server header state r.0 r.1) e
          (post_span-IsPosted server header state now raw) in
      (
        u,
        row,
        lets,
        owned,
        added,
        process_batch-delivery (id, row) [] outage a rest all well
            (All-last state.stream row (subst (All (ReadsBack host serialize)) added back), tt),
      )
