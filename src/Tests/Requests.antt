-- ===== src/Tests/Requests.antt =====
-- Requests to the receivers, with and without a key.
use Prim.Native.String.{◌++◌, len}
use text.Mathlib.TextPositions.{len-append}
use halley.Common.{ℕ, ◌≡◌, ◌≢◌, ◌↔◌, refl, ap, zero, suc, String, true, none, some, [], ◌∷◌, arith}
use halley.Common.Int.{pos}
use halley.External.{External, Uuid}
use halley.Domain.Errors.{ok}
use halley.Receiver.Auth.{Services, redis_key, validate_token}
use halley.Receiver.Auth.Issued.{IsHonest, IsRight, validate_token-IsHonest}
use halley.Receiver.Gate.{allowed, unwrapped, authorize}
use halley.Receiver.Gate.Token.{Grants, authorize_iff}
use halley.Receiver.Proto.{
  ProtoSpan, string_value, no_entries, entry, valueless, KeyValues, proto_span_to_otlp,
}
use halley.Domain.OtlpSpan.{OtlpSpan, AnyValue, AnyValues, AnyFields}
use halley.Receiver.Proto.RoundTrip.{
  IsValue, IsSpan, proto_span_of, proto_span_to_otlp-proto_span_of,
}
use halley.Receiver.Ingest.{Publishing, Tally, ingest_otlp_request}
use halley.Receiver.Ingest.Counts.{Delivered, count_resources, ingest_otlp_request-Delivered}
use halley.Receiver.Handlers.{
  Server, State, Request, request, undecodable, Decoders, decode_body, post_span, post_otlp_traces,
  export,
}
use halley.Receiver.Handlers.Posted.{IsPosted, post_span-IsPosted}
use halley.Receiver.Handlers.Traces.{
  IsExported, IsTraced, export-IsExported, post_otlp_traces-IsTraced,
}
use halley.Tests.{test_external}
use halley.Tests.Spans.{raw_span}

-- Every key belongs to project 1.
abbrev pub test_services : Services
test_services = record {
  connected = true;
  reads = true;
  writes = true;
  api_keys = some (λ h. some 1);
}

abbrev pub nothing_fails : Publishing
nothing_fails = λ stream row. none

abbrev pub test_server : Server
test_server = record {
  ext = test_external;
  services = test_services;
  publishing = nothing_fails;
  auth_required = true;
  dev_project_id = 2;
}

abbrev pub empty_state : State
empty_state = record { cache = []; stream = [] }

abbrev pub test_header : String
test_header = "Bearer hlly_abc"

abbrev test_attributes : KeyValues
test_attributes =
    entry "gen_ai.system" (string_value "openai")
      (valueless "x" (entry "gen_ai.system" (string_value "anthropic") no_entries))

abbrev test_proto : ProtoSpan
test_proto = record {
  trace_id = 1 ∷ 2 ∷ 3 ∷ 4 ∷ 5 ∷ 6 ∷ 7 ∷ 8 ∷ 9 ∷ 10 ∷ 11 ∷ 12 ∷ 13 ∷ 14 ∷ 15 ∷ 16 ∷ [];
  span_id = 1 ∷ 2 ∷ 3 ∷ 4 ∷ 5 ∷ 6 ∷ 7 ∷ 8 ∷ [];
  parent_span_id = [];
  name = "chat";
  kind = pos 1;
  start_time_unix_nano = 1000;
  end_time_unix_nano = 2000;
  attributes = test_attributes;
  events = [];
  status = none;
}

abbrev unknown_proto : ProtoSpan
unknown_proto = record test_proto { attributes = no_entries }

abbrev two_spans : Request
two_spans = (((test_proto, 7) ∷ (unknown_proto, 8) ∷ []) ∷ []) ∷ []

abbrev test_decoders : Decoders
test_decoders = record { protobuf = request two_spans; json = undecodable "eof"; debug = λ s. s }

-- What a test says is issued: every key, for project 1.
abbrev IssuedOne : String → Uuid → Type 0
IssuedOne key u = u ≡ 1

ingest_otlp_request-Delivered_example :
    (t : Tally) × (ingest_otlp_request test_external nothing_fails 1 two_spans [] ≡ ok t)
    × Delivered 1 (count_resources two_spans) (record { accepted = 0; errors = 0; stream = [] }) t
ingest_otlp_request-Delivered_example =
    ingest_otlp_request-Delivered test_external nothing_fails 1 two_spans []

-- A span with a parent, an event and values of every kind.
abbrev full_span : OtlpSpan
full_span = record {
  trace_id = test_proto.trace_id;
  span_id = test_proto.span_id;
  parent_span_id = some (8 ∷ 7 ∷ 6 ∷ 5 ∷ 4 ∷ 3 ∷ 2 ∷ 1 ∷ []);
  name = "chat";
  kind = pos 1;
  start_time_unix_nano = 1000;
  end_time_unix_nano = 2000;
  attributes =
      ("flag", AnyValue.bool true)
      ∷ (
        "list",
        AnyValue.array (
            AnyValues.cons (AnyValue.int (pos 3)) (
              AnyValues.cons
                (AnyValue.kvlist (
                  AnyFields.field "a" (AnyValue.bytes (1 ∷ []))
                    (AnyFields.field "b" (AnyValue.double 7) AnyFields.end)))
                AnyValues.nil)),
      )
      ∷ [];
  events =
      record {
        name = "token";
        time_unix_nano = 1500;
        attributes = ("text", AnyValue.string "hi") ∷ [];
      }
      ∷ [];
  status_code = pos 2;
  status_message = "late";
}

full_span-IsSpan : IsSpan full_span
unfolding IsValue
full_span-IsSpan = record {
  trace_id = refl;
  span_id = refl;
  parent_span_id = refl;
  attributes =
      (((refl, tt), (tt, tt)), (tt, ((tt, ((((refl, tt), (tt, tt)), (tt, (tt, tt))), tt)), tt)));
  events = (((tt, tt), (tt, tt)), tt);
}

proto_span_to_otlp-proto_span_of_example : proto_span_to_otlp (proto_span_of full_span) ≡ full_span
proto_span_to_otlp-proto_span_of_example =
    proto_span_to_otlp-proto_span_of full_span full_span-IsSpan

authorize_iff_example :
    ((authorize (validate_token test_external test_services []) true 2 test_header []
        ≡ allowed 1 [])
      ↔ Grants (validate_token test_external test_services []) true 2 [] test_header 1 [])
    × (authorize (validate_token test_external test_services []) true 2 test_header [] ≢ unwrapped)
authorize_iff_example =
    authorize_iff (validate_token test_external test_services []) true 2 [] test_header 1 []

post_span-IsPosted_example :
    IsPosted test_server test_header empty_state
      (post_span test_server test_header 7 raw_span empty_state).0
      (post_span test_server test_header 7 raw_span empty_state).1
post_span-IsPosted_example = post_span-IsPosted test_server test_header empty_state 7 raw_span

export-IsExported_example :
    IsExported test_server test_header two_spans empty_state
      (export test_server test_header two_spans empty_state).0
      (export test_server test_header two_spans empty_state).1
export-IsExported_example = export-IsExported test_server test_header empty_state two_spans

post_otlp_traces-IsTraced_example :
    IsTraced test_server test_header
      (decode_body test_decoders "application/x-protobuf")
      empty_state
      (post_otlp_traces test_server test_decoders "application/x-protobuf" test_header
        empty_state).0
      (post_otlp_traces test_server test_decoders "application/x-protobuf" test_header
        empty_state).1
post_otlp_traces-IsTraced_example =
    post_otlp_traces-IsTraced test_server test_header empty_state test_decoders
      "application/x-protobuf"

-- Texts of UUIDs that are read back: as many characters as the number says.
abbrev unary_text : ℕ → String
unary_text zero = ""
unary_text (suc n) = "x" ++ unary_text n

len-unary_text : (n : ℕ) → len (unary_text n) ≡ n
len-unary_text zero = refl
len-unary_text (suc n) = omega (arith, len-append "x" (unary_text n), len-unary_text n)

abbrev unary_external : External
unary_external = record test_external {
  uuid_to_string = unary_text;
  uuid_parse = λ s. some (len s);
}

uuid_back : (u : Uuid) → unary_external.uuid_parse (unary_external.uuid_to_string u) ≡ some u
uuid_back u = ap (λ n. some n) (len-unary_text u)

validate_token-IsHonest_example :
    IsRight unary_external IssuedOne
      (redis_key unary_external "hlly_abc")
      (validate_token unary_external test_services [] "hlly_abc").0
    × IsHonest unary_external IssuedOne
        (validate_token unary_external test_services [] "hlly_abc").1
validate_token-IsHonest_example =
    validate_token-IsHonest unary_external IssuedOne test_services [] "hlly_abc" uuid_back tt refl
