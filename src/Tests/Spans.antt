-- ===== src/Tests/Spans.antt =====
-- Spans of two dialects, normalized.
use halley.Common.{◌≡◌, ◌↔◌, refl, false, none, some, [], ◌∷◌, ◌++◌, arith, All}
use halley.Common.Int.{pos}
use halley.Common.BTreeMap.{get}
use halley.Common.BTreeMap.Laws.{IsSorted}
use halley.Json.{string}
use halley.Domain.Errors.{ok, ◌>>=◌}
use halley.Domain.OtlpSpan.{AnyValue, OtlpSpan}
use halley.Domain.Rows.{ObservationRow}
use halley.Domain.Span.{RawSpan, try_from}
use halley.Domain.CanonicalSpan.{CanonicalSpan, into_rows}
use halley.Domain.CanonicalSpan.Stored.{rows_of, hash_of, into_rows_stored}
use halley.Normalizer.Attrs.{Attributes}
use halley.Normalizer.HalleyRaw.{raw_span_to_otlp}
use halley.Normalizer.HalleyRaw
use halley.Normalizer.HalleyRaw.Plain.{IsPlain}
use halley.Normalizer.HalleyRaw.Refines.{into_rows-normalize-eq-try_from}
use halley.Normalizer.VercelAi
use halley.Normalizer.Dispatch
use halley.Normalizer.Dispatch.{
  Adapter, dialect_id, normalize, err, unknown_dialect, detect, halley_raw, open_llmetry,
  open_inference, vercel_ai, otel_gen_ai,
}
use halley.Normalizer.Dispatch.Chosen.{IsChosen, IsMadeBy, normalize_first, normalize_unknown}
use halley.Normalizer.Dispatch.Kept.{IsKept, normalize-IsKept}
use halley.Tests.{test_external}

abbrev pub raw_span : RawSpan
raw_span = record {
  trace_id = "4bf92f3577b34da6a3ce929d0e0e4736";
  span_id = "00f067aa0ba902b7";
  parent_span_id = none;
  run_id = none;
  project_id = 1;
  start_time_unix_nano = 1000;
  end_time_unix_nano = 2000;
  source_dialect = "halley-raw";
  dialect_version = "1";
  gen_ai_system = "openai";
  gen_ai_operation = "chat";
  gen_ai_request_model = "gpt-4";
  gen_ai_response_model = "gpt-4";
  gen_ai_usage_input_tokens = 12;
  gen_ai_usage_output_tokens = 30;
  gen_ai_response_finish_reason = "stop";
  input_body = some (string "hi");
  output_body = none;
  tool_name = "";
  tool_input = none;
  tool_output = none;
  tool_side_effect = "";
  run_name = "nightly";
  run_tags = "prod" ∷ [];
  run_env = "ci";
  pricing_version_id = 2;
  status = "error";
  error_message = "late";
  attributes = ("region", "eu") ∷ ("halley.run.kind", "agent") ∷ [];
}

raw_span-IsPlain : IsPlain test_external raw_span
unfolding get
raw_span-IsPlain = record {
  dialect = refl;
  no_run = refl;
  distinct = (refl, (refl, tt));
  free = (refl, (refl, tt));
  input_tokens = omega arith;
  output_tokens = omega arith;
  project = refl;
  pricing = refl;
  tags = refl;
  input = refl;
  output = tt;
  tool_input = tt;
  tool_output = tt;
}

into_rows-normalize-eq-try_from_example :
    (raw_span_to_otlp test_external raw_span >>= λ span.
    into_rows test_external 7 (HalleyRaw.normalize test_external span))
    ≡ try_from test_external 7 raw_span
into_rows-normalize-eq-try_from_example =
    into_rows-normalize-eq-try_from test_external 7 raw_span raw_span-IsPlain

abbrev vercel_attributes : Attributes
vercel_attributes =
    ("ai.model.id", AnyValue.string "gpt-4")
    ∷ ("ai.operationId", AnyValue.string "ai.generateText")
    ∷ ("region", AnyValue.string "eu")
    ∷ []

abbrev vercel_span : OtlpSpan
vercel_span = record {
  trace_id = 1 ∷ [];
  span_id = 2 ∷ [];
  parent_span_id = none;
  name = "ai.generateText";
  kind = pos 1;
  start_time_unix_nano = 1000;
  end_time_unix_nano = 2000;
  attributes = vercel_attributes;
  events = [];
  status_code = pos 0;
  status_message = "";
}

abbrev pub vercel_canonical : CanonicalSpan
vercel_canonical = VercelAi.normalize test_external vercel_span

abbrev bare_span : OtlpSpan
bare_span = record vercel_span { name = "GET"; attributes = [] }

vercel_span-normalized : normalize test_external vercel_span ≡ Dispatch.ok vercel_canonical
unfolding normalize
vercel_span-normalized = refl

bare_span-unknown : normalize test_external bare_span ≡ err unknown_dialect
unfolding normalize
bare_span-unknown = refl

normalize_first_example :
    (a : Adapter) × IsChosen
      (halley_raw ∷ open_llmetry ∷ open_inference ∷ vercel_ai ∷ otel_gen_ai ∷ [])
      a
      vercel_span
    × IsMadeBy test_external a vercel_span vercel_canonical
normalize_first_example =
    normalize_first test_external vercel_span vercel_canonical vercel_span-normalized

normalize_unknown_example :
    (normalize test_external bare_span ≡ err unknown_dialect)
    ↔ All
        (λ a. detect a bare_span ≡ false)
        (halley_raw ∷ open_llmetry ∷ open_inference ∷ vercel_ai ∷ otel_gen_ai ∷ [])
normalize_unknown_example = normalize_unknown test_external bare_span

vercel_attributes-IsSorted : IsSorted vercel_attributes
vercel_attributes-IsSorted = ((refl, (refl, tt)), ((refl, tt), (tt, tt)))

normalize-IsKept_example :
    (a : Adapter) × (vercel_canonical.source_dialect ≡ dialect_id a)
    × IsKept test_external a vercel_span vercel_canonical
normalize-IsKept_example =
    normalize-IsKept test_external vercel_span vercel_attributes-IsSorted vercel_canonical
      vercel_span-normalized

into_rows_stored_example :
    (o : ObservationRow) × (into_rows test_external 7 vercel_canonical
      ≡ ok (
        o,
        (((rows_of test_external vercel_canonical.project_id 7 vercel_canonical.input_body
                ++ rows_of test_external vercel_canonical.project_id 7 vercel_canonical.output_body)
              ++ rows_of test_external vercel_canonical.project_id 7 vercel_canonical.tool_input)
            ++ rows_of test_external vercel_canonical.project_id 7 vercel_canonical.tool_output),
      ))
    × (o.run_id ≡ vercel_canonical.trace_id)
    × (o.input_body_hash ≡ hash_of test_external vercel_canonical.input_body)
    × (o.output_body_hash ≡ hash_of test_external vercel_canonical.output_body)
    × (o.tool_input_hash ≡ hash_of test_external vercel_canonical.tool_input)
    × (o.tool_output_hash ≡ hash_of test_external vercel_canonical.tool_output)
into_rows_stored_example = into_rows_stored test_external 7 vercel_canonical
