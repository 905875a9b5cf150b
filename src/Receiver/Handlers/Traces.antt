-- ===== src/Receiver/Handlers/Traces.antt =====
-- What a request with OTLP traces does to the stream, over HTTP and over gRPC.
use halley.Common.{String, ◌≡◌, ◌≢◌, refl, true, false, arith}
use halley.External.{Uuid}
use halley.Domain.Errors.{Outcome, ok, err, panic}
use halley.Receiver.Auth.{Cache}
use halley.Receiver.Gate.{Checked, allowed, refused, unwrapped}
use halley.Receiver.Gate.Token.{allowed-Grants, check-ne-unwrapped}
use halley.Receiver.Ingest.{Tally, ingest_otlp_request}
use halley.Receiver.Ingest.Counts.{Delivered, count_resources, ingest_otlp_request-Delivered}
use halley.Receiver.Handlers.{
  Server, State, check, Request, Decoders, Body, request, undecodable, decoded_as, decode_body,
  traces_checked, traces_decoded, post_otlp_traces, Export, exported, denied, export_panic,
  export_checked, export,
}
use halley.Receiver.Handlers.Posted.{LetsIn}

-- The header lets the request in for a project, and the stream grows by the rows of this project
-- that `Delivered` describes.
abbrev pub IsIngested : Server → String → Request → State → State → Type 0
IsIngested server header r state after =
    (u : Uuid) × (t : Tally) × LetsIn server header state u after.cache
    × Delivered u (count_resources r) (record { accepted = 0; errors = 0; stream = state.stream }) t
    × (after.stream ≡ t.stream)

abbrev pub IsExported : Server → String → Request → State → Export → State → Type 0
IsExported server header r state exported after = IsIngested server header r state after
IsExported server header r state (denied s) after = after.stream ≡ state.stream
IsExported server header r state export_panic after = false ≡ true

abbrev pub IsTraced :
    Server → String → Outcome Request → State → Outcome (Unit {0}) → State → Type 0
IsTraced server header o state (ok _) after =
    (r : Request) × (o ≡ ok r) × IsIngested server header r state after
IsTraced server header o state (err e) after = after.stream ≡ state.stream
IsTraced server header o state panic after = false ≡ true

decoded_as-ne-panic : (what : String) (b : Body) → decoded_as what b ≢ panic
decoded_as-ne-panic what (request r) e = cc
decoded_as-ne-panic what (undecodable m) e = cc

decode_body-ne-panic :
    (decoders : Decoders) (content_type : String) → decode_body decoders content_type ≢ panic
unfolding decode_body
decode_body-ne-panic decoders content_type = ground (
  arith,
  decoded_as-ne-panic "protobuf" decoders.protobuf,
  decoded_as-ne-panic "json" decoders.json,
)

module _ (server : Server) (header : String) (state : State) where
  ingested_lem :
      (r : Request) (u : Uuid) (cache : Cache)
      → check server header state ≡ allowed u cache
      → (t : Tally) × (ingest_otlp_request server.ext server.publishing u r state.stream ≡ ok t)
        × IsIngested server header r state (record { cache = cache; stream = t.stream })
  ingested_lem r u cache e =
      let (t, done, d) =
        ingest_otlp_request-Delivered server.ext server.publishing u r state.stream in
      (t, done, (u, t, allowed-Grants _ _ _ _ header u cache e, d, refl))

  export_lem :
      (r : Request) (c : Checked Cache)
      → check server header state ≡ c
      → let (result, after) = export_checked server r state c in
        IsExported server header r state result after
  export_lem r (allowed u cache) e = let (t, done, h) = ingested_lem r u cache e in rw done h
  export_lem r (refused why cache) e = refl
  export_lem r unwrapped e = absurd (check-ne-unwrapped _ _ _ _ header e)

  traces_lem :
      (o : Outcome Request) (r : Request) (c : Checked Cache)
      → o ≡ ok r
      → check server header state ≡ c
      → let (result, after) = traces_checked server r state c in
        IsTraced server header o state result after
  traces_lem o r (allowed u cache) d e =
      let (t, done, h) = ingested_lem r u cache e in rw done (r, d, h)
  traces_lem o r (refused why cache) d e = refl
  traces_lem o r unwrapped d e = absurd (check-ne-unwrapped _ _ _ _ header e)

  -- The gRPC handler never panics. It answers success only where the header lets the request in for
  -- a project, and then the stream grows by rows of that project, one for each span that is not
  -- rejected; where it denies the request the stream is as it was.
  pub export-IsExported :
      (r : Request)
      → IsExported server header r state
          (export server header r state).0
          (export server header r state).1
  unfolding export
  export-IsExported r = export_lem r (check server header state) refl

  decoded_lem :
      (o : Outcome Request)
      → o ≢ panic
      → let (result, after) = traces_decoded server header state o in
        IsTraced server header o state result after
  decoded_lem (ok r) n = traces_lem (ok r) r (check server header state) refl refl
  decoded_lem (err e) n = refl
  decoded_lem panic n = absurd (n refl)

  -- The HTTP handler never panics. It answers success only where the body is decoded and the header
  -- lets the request in for a project, and then the stream grows by rows of that project, one for each
  -- span that is not rejected; with an error the stream is as it was.
  pub post_otlp_traces-IsTraced :
      (decoders : Decoders) (content_type : String)
      → IsTraced server header
          (decode_body decoders content_type)
          state
          (post_otlp_traces server decoders content_type header state).0
          (post_otlp_traces server decoders content_type header state).1
  unfolding post_otlp_traces
  post_otlp_traces-IsTraced decoders content_type =
      decoded_lem (decode_body decoders content_type) (decode_body-ne-panic decoders content_type)
