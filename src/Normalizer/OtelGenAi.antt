-- ===== src/Normalizer/OtelGenAi.antt =====
-- ingester/src/normalizer/otel_genai.rs: the OTEL GenAI semantic conventions.
use mathlib.Core.Option
use halley.Common.{String, Bool, Option, List, [], ◌∷◌, ◌||◌, str_eq}
use halley.Common.BTreeMap.{get, contains_key}
use halley.External.{External}
use halley.Json.{Value}
use halley.Domain.OtlpSpan.{OtlpSpan, OtlpEvent}
use halley.Domain.CanonicalSpan.{CanonicalSpan}
use halley.Normalizer.Attrs.{
  Attributes, str_attr, u32_attr, uuid_attr, tags_attr, json_str_attr, extra_attributes,
  parse_json_anyvalue, status_from_code, finish_reason, or_if_empty,
}
use halley.Normalizer.Events.{event_messages, messages_or}

abbrev pub consumed_keys : List String
consumed_keys =
    "gen_ai.system" ∷ "gen_ai.provider.name" ∷ "gen_ai.operation.name" ∷ "gen_ai.request.model"
    ∷ "gen_ai.response.model" ∷ "gen_ai.usage.input_tokens" ∷ "gen_ai.usage.output_tokens"
    ∷ "gen_ai.response.finish_reasons" ∷ "gen_ai.response.finish_reason" ∷ "gen_ai.input.messages"
    ∷ "gen_ai.output.messages" ∷ "gen_ai.tool.name" ∷ "gen_ai.tool.call.arguments"
    ∷ "gen_ai.tool.call.result" ∷ "halley.project_id" ∷ "halley.pricing_version_id"
    ∷ "halley.run_name" ∷ "halley.run_tags" ∷ "halley.run_env" ∷ "halley.dialect_version"
    ∷ "halley.tool_side_effect" ∷ []

unfoldable pub detect : OtlpSpan → Bool
unfolding contains_key
detect span =
    contains_key span.attributes "gen_ai.system"
    || contains_key span.attributes "gen_ai.provider.name"

unfoldable pub extract_bodies : External → List OtlpEvent → Attributes → Option Value × Option Value
unfolding event_messages json_str_attr
extract_bodies ext events attrs =
    let (input, output) = event_messages ext events in
    (
      messages_or input (json_str_attr ext attrs "gen_ai.input.messages"),
      messages_or output (json_str_attr ext attrs "gen_ai.output.messages"),
    )

unfoldable pub normalize : External → OtlpSpan → CanonicalSpan
unfolding str_attr u32_attr uuid_attr tags_attr extra_attributes parse_json_anyvalue
    status_from_code finish_reason extract_bodies get
normalize ext span =
    let attrs = span.attributes in
    let (input_body, output_body) = extract_bodies ext span.events attrs in
    record {
      trace_id = span.trace_id;
      span_id = span.span_id;
      parent_span_id = span.parent_span_id;
      start_time_unix_nano = span.start_time_unix_nano;
      end_time_unix_nano = span.end_time_unix_nano;
      source_dialect = "otel-genai";
      dialect_version = str_attr attrs "halley.dialect_version";
      gen_ai_system =
          or_if_empty (str_attr attrs "gen_ai.provider.name") (str_attr attrs "gen_ai.system");
      gen_ai_operation = str_attr attrs "gen_ai.operation.name";
      gen_ai_request_model = str_attr attrs "gen_ai.request.model";
      gen_ai_response_model = str_attr attrs "gen_ai.response.model";
      gen_ai_usage_input_tokens = u32_attr attrs "gen_ai.usage.input_tokens";
      gen_ai_usage_output_tokens = u32_attr attrs "gen_ai.usage.output_tokens";
      gen_ai_response_finish_reason = finish_reason attrs;
      input_body = input_body;
      output_body = output_body;
      tool_input = Option.map (parse_json_anyvalue ext) (get attrs "gen_ai.tool.call.arguments");
      tool_output = Option.map (parse_json_anyvalue ext) (get attrs "gen_ai.tool.call.result");
      tool_name = str_attr attrs "gen_ai.tool.name";
      tool_side_effect = str_attr attrs "halley.tool_side_effect";
      project_id = uuid_attr ext attrs "halley.project_id";
      run_name = str_attr attrs "halley.run_name";
      run_tags = tags_attr ext attrs "halley.run_tags";
      run_env = str_attr attrs "halley.run_env";
      pricing_version_id = uuid_attr ext attrs "halley.pricing_version_id";
      status = status_from_code span.status_code;
      error_message = span.status_message;
      attributes = extra_attributes ext consumed_keys attrs;
      is_run_root =
          str_eq (str_attr attrs "gen_ai.operation.name") "invoke_agent"
          || str_eq (str_attr attrs "halley.run.kind") "agent";
    }
