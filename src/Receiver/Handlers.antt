-- ===== src/Receiver/Handlers.antt =====
-- The three handlers: `post_span` of ingester/src/http/spans.rs, `post_otlp_traces` of
-- ingester/src/http/otlp.rs and `export` of ingester/src/grpc/otlp.rs.
pub mod Posted
pub mod Traces
use Prim.Native.String.{◌++◌ as append}
use halley.Common.{ℕ, String, Bool, List, [], ◌∷◌, Option, none, some, ◌||◌, if◌then◌else◌}
use halley.External.{External, Uuid}
use halley.Domain.Errors.{IngestError, invalid_field, storage, Outcome, ok, err, panic, ◌>>=◌}
use halley.Domain.CanonicalSpan.{CanonicalSpan}
use halley.Domain.Span.{RawSpan}
use halley.Normalizer.Dispatch.{Normalized, NormalizeError, unknown_dialect, failed, normalize}
use halley.Normalizer.HalleyRaw.{raw_span_to_otlp}
use halley.Pipeline.Retry.{error_text, str_contains}
use halley.Receiver.Auth.{Cache, Services, Validated, validate_token}
use halley.Receiver.Gate.{
  Checked, allowed, refused, unwrapped, Refusal, Status, authorize, refusal_error, refusal_status,
}
use halley.Receiver.Proto.{ProtoSpan}
use halley.Receiver.Ingest.{
  Stored, Publishing, publish_rows, owned_rows, Tally, ingest_otlp_request,
}

-- What the handlers run with: the two services, the publisher's answers, and the configuration.
pub record Server : Type 0 where
  pub ext : External
  pub services : Services
  pub publishing : Publishing
  pub auth_required : Bool
  pub dev_project_id : Uuid

-- What they change: the cache of keys, and the stream.
pub record State : Type 0 where
  pub cache : Cache
  pub stream : List Stored

abbrev pub check : Server → String → State → Checked Cache
check server header state =
    authorize (validate_token server.ext server.services state.cache) server.auth_required
      server.dev_project_id header state.cache

-- `Display` of the error.
abbrev normalize_error_text : NormalizeError → String
normalize_error_text unknown_dialect = "unknown dialect: no adapter matched the span"
normalize_error_text (failed m) = append "normalization failed: " m

json_normalized : Normalized → Outcome CanonicalSpan
json_normalized (Normalized.ok c) = ok c
json_normalized (Normalized.err e) =
    err (invalid_field "span" (append "normalize error: " (normalize_error_text e)))

-- `map_err` of the conversion to rows.
into_rows_error : Outcome Stored → Outcome Stored
unfolding error_text
into_rows_error (err e) = err (storage (append "into_rows: " (error_text e)))
into_rows_error r = r

abbrev raw_span_rows : External → ℕ → Uuid → RawSpan → Outcome Stored
raw_span_rows ext now project_id raw = raw_span_to_otlp ext raw >>= λ span.
    json_normalized (normalize ext span) >>= λ canonical.
    into_rows_error (owned_rows ext now project_id canonical)

-- `Accepted { accepted: 1 }`
abbrev accepted_one : Outcome (Unit {0}) → Outcome ℕ
accepted_one (ok _) = ok 1
accepted_one (err e) = err e
accepted_one panic = panic

abbrev post_checked : Server → ℕ → RawSpan → State → Checked Cache → Outcome ℕ × State
post_checked server now raw state (allowed project_id cache) =
    let (result, stream) =
      publish_rows server.publishing (raw_span_rows server.ext now project_id raw) state.stream in
    (accepted_one result, record { cache = cache; stream = stream })
post_checked server now raw state (refused r cache) =
    (err (refusal_error r), record { cache = cache; stream = state.stream })
post_checked server now raw state unwrapped = (panic, state)

-- `header` is the text of the header `authorization`, empty where it is missing or no text.
unfoldable pub post_span : Server → (header : String) → ℕ → RawSpan → State → Outcome ℕ × State
unfolding refusal_error authorize validate_token json_normalized into_rows_error owned_rows
post_span server header now raw state =
    post_checked server now raw state (check server header state)

-- A request: its resources, each with its scopes, each with its spans and their times.
abbrev pub Request : Type 0
Request = List (List (List (ProtoSpan × ℕ)))

-- The result of decoding a body.
pub data Body : Type 0 where
  request : Request → Body
  undecodable : String → Body

-- The body decoded as protobuf and as JSON, each by its library.
pub record Decoders : Type 0 where
  pub protobuf : Body
  pub json : Body
  -- `{content_type:?}`
  pub debug : String → String

abbrev decoded_as : String → Body → Outcome Request
decoded_as what (request r) = ok r
decoded_as what (undecodable e) =
    err (invalid_field "body" (append what (append " decode error: " e)))

unfoldable pub decode_body : Decoders → String → Outcome Request
decode_body decoders content_type =
    if str_contains content_type "application/x-protobuf"
      || str_contains content_type "application/octet-stream"
    then decoded_as "protobuf" decoders.protobuf
    else (if str_contains content_type "application/json"
        then decoded_as "json" decoders.json
        else err (
            invalid_field "content-type" (
              append "unsupported content-type: " (
                append (decoders.debug content_type)
                  "; expected application/x-protobuf or application/json"))))

abbrev traced : Cache → State → Outcome Tally → Outcome (Unit {0}) × State
traced cache state (ok t) = (ok tt, record { cache = cache; stream = t.stream })
traced cache state (err e) = (err e, record { cache = cache; stream = state.stream })
traced cache state panic = (panic, record { cache = cache; stream = state.stream })

abbrev traces_checked : Server → Request → State → Checked Cache → Outcome (Unit {0}) × State
traces_checked server r state (allowed project_id cache) =
    traced cache state (ingest_otlp_request server.ext server.publishing project_id r state.stream)
traces_checked server r state (refused why cache) =
    (err (refusal_error why), record { cache = cache; stream = state.stream })
traces_checked server r state unwrapped = (panic, state)

abbrev traces_decoded : Server → String → State → Outcome Request → Outcome (Unit {0}) × State
traces_decoded server header state (ok r) =
    traces_checked server r state (check server header state)
traces_decoded server header state (err e) = (err e, state)
traces_decoded server header state panic = (panic, state)

-- The answer is 200 and `{}` however many spans are rejected.
unfoldable pub post_otlp_traces :
    Server → Decoders → (content_type header : String) → State → Outcome (Unit {0}) × State
unfolding decode_body refusal_error authorize validate_token ingest_otlp_request
post_otlp_traces server decoders content_type header state =
    traces_decoded server header state (decode_body decoders content_type)

-- The answer of the gRPC handler.
pub data Export : Type 0 where
  exported : Export
  denied : Status → Export
  export_panic : Export

abbrev export_done : Outcome (Unit {0}) → Export
export_done panic = export_panic
export_done _ = exported

abbrev export_checked : Server → Request → State → Checked Cache → Export × State
export_checked server r state (allowed project_id cache) =
    let (result, after) =
      traced cache state
        (ingest_otlp_request server.ext server.publishing project_id r state.stream) in
    (export_done result, after)
export_checked server r state (refused why cache) =
    (denied (refusal_status why), record { cache = cache; stream = state.stream })
export_checked server r state unwrapped = (export_panic, state)

unfoldable pub export : Server → (header : String) → Request → State → Export × State
unfolding refusal_status authorize validate_token ingest_otlp_request
export server header r state = export_checked server r state (check server header state)
