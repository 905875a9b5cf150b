-- ===== src/Receiver/Ingest.antt =====
-- ingester/src/pipeline/ingest.rs: one span, and the spans of a request; with
-- ingester/src/pipeline/publisher.rs.
pub mod Owned
pub mod Counts
use Prim.Native.String.{◌++◌ as append}
use halley.Common.{ℕ, ◌+◌, ◌%◌, ◌^◌, String, Option, none, some, List, [], ◌∷◌, ◌++◌}
use halley.External.{External, Uuid}
use halley.Domain.Errors.{IngestError, invalid_field, storage, Outcome, ok, err, panic, ◌>>=◌}
use halley.Domain.Rows.{ObservationRow, BodyRow}
use halley.Domain.CanonicalSpan.{CanonicalSpan, into_rows}
use halley.Domain.OtlpSpan.{OtlpSpan}
use halley.Normalizer.Dispatch.{Normalized, normalize, unknown_dialect, failed}
use halley.Normalizer.Dispatch
use halley.Receiver.Proto.{ProtoSpan, proto_span_to_otlp}

-- What one entry of the stream holds; the encoding is `bincode`'s.
abbrev pub Stored : Type 0
Stored = ObservationRow × List BodyRow

-- The text of the error of an encoding or of an XADD, if there is one, given what the stream holds.
abbrev pub Publishing : Type 0
Publishing = List Stored → Stored → Option String

abbrev publish_error : String → IngestError
publish_error e = storage (append "publish error: " e)

abbrev pub sent : Stored → List Stored → Option String → Outcome (Unit {0}) × List Stored
sent row stream none = (ok tt, stream ++ row ∷ [])
sent row stream (some e) = (err (publish_error e), stream)

-- `Publisher::publish` and the error that its callers make, with the stream after it.
unfoldable pub publish : Publishing → Stored → List Stored → Outcome (Unit {0}) × List Stored
publish errors row stream = sent row stream (errors stream row)

abbrev pub publish_rows :
    Publishing → Outcome Stored → List Stored → Outcome (Unit {0}) × List Stored
publish_rows errors (ok row) stream = publish errors row stream
publish_rows errors (err e) stream = (err e, stream)
publish_rows errors panic stream = (panic, stream)

normalized : Normalized → Outcome CanonicalSpan
normalized (Normalized.ok c) = ok c
normalized (Normalized.err unknown_dialect) =
    err (invalid_field "span" "unknown dialect: no adapter matched")
normalized (Normalized.err (failed m)) = err (invalid_field "span" (append "normalize failed: " m))

-- The rows of a normalized span, for the project of the API key.
unfoldable pub owned_rows : External → ℕ → Uuid → CanonicalSpan → Outcome Stored
unfolding into_rows
owned_rows ext now project_id canonical =
    into_rows ext now (record canonical { project_id = project_id })

abbrev span_rows : External → ℕ → Uuid → ProtoSpan → Outcome Stored
span_rows ext now project_id span =
    normalized (normalize ext (proto_span_to_otlp span)) >>= owned_rows ext now project_id

unfoldable pub process_one_span :
    External → Publishing → Uuid → ProtoSpan × ℕ → List Stored → Outcome (Unit {0}) × List Stored
unfolding publish normalized owned_rows normalize proto_span_to_otlp
process_one_span ext errors project_id (span, now) stream =
    publish_rows errors (span_rows ext now project_id span) stream

-- The two counters, which are 32-bit numbers, and the stream.
pub record Tally : Type 0 where
  pub accepted : ℕ
  pub errors : ℕ
  pub stream : List Stored

abbrev counted : Tally → Outcome (Unit {0}) × List Stored → Outcome Tally
counted t (ok _, stream) =
    ok (record { accepted = (t.accepted + 1) % 2 ^ 32; errors = t.errors; stream = stream })
counted t (err _, stream) =
    ok (record { accepted = t.accepted; errors = (t.errors + 1) % 2 ^ 32; stream = stream })
counted t (panic, stream) = panic

-- The three loops of `ingest_otlp_request`; each span comes with the time at which it is hashed.
module _ (ext : External) (publishing : Publishing) (project_id : Uuid) where
  unfoldable pub ingest_spans : List (ProtoSpan × ℕ) → Tally → Outcome Tally
  unfolding process_one_span
  ingest_spans [] t = ok t
  ingest_spans (s ∷ spans) t =
      counted t (process_one_span ext publishing project_id s t.stream) >>= ingest_spans spans

  unfoldable pub ingest_scopes : List (List (ProtoSpan × ℕ)) → Tally → Outcome Tally
  unfolding ingest_spans
  ingest_scopes [] t = ok t
  ingest_scopes (spans ∷ scopes) t = ingest_spans spans t >>= ingest_scopes scopes

  unfoldable pub ingest_resources : List (List (List (ProtoSpan × ℕ))) → Tally → Outcome Tally
  unfolding ingest_scopes
  ingest_resources [] t = ok t
  ingest_resources (scopes ∷ resources) t = ingest_scopes scopes t >>= ingest_resources resources

  unfoldable pub ingest_otlp_request :
      List (List (List (ProtoSpan × ℕ))) → List Stored → Outcome Tally
  unfolding ingest_resources
  ingest_otlp_request request stream =
      ingest_resources request (record { accepted = 0; errors = 0; stream = stream })
