-- ===== src/Normalizer/OpenLlmetry.antt =====
-- ingester/src/normalizer/openllmetry.rs: OpenLLMetry spans.

use mathlib.Core.Option
use halley.Common.{
  String, Bool, false, Option, List, [], ◌∷◌, ◌||◌, str_eq, starts_with, if◌then◌else◌,
}
use halley.Common.BTreeMap.{get, contains_key}
use halley.External.{External}
use halley.Json.{Value}
use halley.Domain.OtlpSpan.{OtlpSpan, OtlpEvent}
use halley.Domain.CanonicalSpan.{CanonicalSpan}
use halley.Normalizer.Attrs.{
  Attributes, str_attr, u32_attr, uuid_attr, tags_attr, json_str_attr, extra_attributes,
  parse_json_anyvalue, status_from_code, finish_reason, or_if_empty,
}
use halley.Normalizer.Events.{event_messages, messages_or}

abbrev pub consumed_keys : List String
consumed_keys =
    "gen_ai.system" ∷ "gen_ai.provider.name" ∷ "gen_ai.operation.name" ∷ "gen_ai.request.model"
    ∷ "gen_ai.response.model" ∷ "gen_ai.usage.input_tokens" ∷ "gen_ai.usage.output_tokens"
    ∷ "gen_ai.response.finish_reasons" ∷ "gen_ai.response.finish_reason" ∷ "gen_ai.input.messages"
    ∷ "gen_ai.output.messages" ∷ "gen_ai.tool.name" ∷ "gen_ai.tool.call.arguments"
    ∷ "gen_ai.tool.call.result" ∷ "traceloop.entity.name" ∷ "traceloop.span.kind"
    ∷ "traceloop.entity.input" ∷ "traceloop.entity.output" ∷ "halley.project_id"
    ∷ "halley.pricing_version_id" ∷ "halley.run_name" ∷ "halley.run_tags" ∷ "halley.run_env"
    ∷ "halley.dialect_version" ∷ "halley.tool_side_effect" ∷ []

-- `keys().any(|k| k.starts_with("traceloop."))`
has_traceloop : Attributes → Bool
has_traceloop [] = false
has_traceloop ((k, v) ∷ attrs) = starts_with k "traceloop." || has_traceloop attrs

unfoldable pub detect : OtlpSpan → Bool
unfolding has_traceloop
detect span = has_traceloop span.attributes

unfoldable pub traceloop_span_kind_to_operation : String → String
traceloop_span_kind_to_operation kind =
    if str_eq kind "llm"
    then "chat"
    else (if str_eq kind "tool"
        then "execute_tool"
        else (if str_eq kind "agent" || str_eq kind "task"
            then "invoke_agent"
            else (if str_eq kind "workflow" then "invoke_workflow" else kind)))

-- The gen_ai attribute if it is there, even one that does not parse, or else the traceloop one.
attribute_body : External → Attributes → String → String → Option Value
unfolding json_str_attr contains_key
attribute_body ext attrs genai traceloop =
    if contains_key attrs genai
    then json_str_attr ext attrs genai
    else json_str_attr ext attrs traceloop

unfoldable pub extract_bodies : External → List OtlpEvent → Attributes → Option Value × Option Value
unfolding event_messages attribute_body
extract_bodies ext events attrs =
    let (input, output) = event_messages ext events in
    (
      messages_or input (attribute_body ext attrs "gen_ai.input.messages" "traceloop.entity.input"),
      messages_or output
          (attribute_body ext attrs "gen_ai.output.messages" "traceloop.entity.output"),
    )

abbrev pub operation : Attributes → String
operation attrs =
    or_if_empty (str_attr attrs "gen_ai.operation.name")
      (traceloop_span_kind_to_operation (str_attr attrs "traceloop.span.kind"))

unfoldable pub normalize : External → OtlpSpan → CanonicalSpan
unfolding str_attr u32_attr uuid_attr tags_attr extra_attributes parse_json_anyvalue
    status_from_code finish_reason extract_bodies get traceloop_span_kind_to_operation
normalize ext span =
    let attrs = span.attributes in
    let (input_body, output_body) = extract_bodies ext span.events attrs in
    record {
      trace_id = span.trace_id;
      span_id = span.span_id;
      parent_span_id = span.parent_span_id;
      start_time_unix_nano = span.start_time_unix_nano;
      end_time_unix_nano = span.end_time_unix_nano;
      source_dialect = "openllmetry";
      dialect_version = str_attr attrs "halley.dialect_version";
      gen_ai_system =
          or_if_empty (str_attr attrs "gen_ai.provider.name") (str_attr attrs "gen_ai.system");
      gen_ai_operation = operation attrs;
      gen_ai_request_model = str_attr attrs "gen_ai.request.model";
      gen_ai_response_model = str_attr attrs "gen_ai.response.model";
      gen_ai_usage_input_tokens = u32_attr attrs "gen_ai.usage.input_tokens";
      gen_ai_usage_output_tokens = u32_attr attrs "gen_ai.usage.output_tokens";
      gen_ai_response_finish_reason = finish_reason attrs;
      input_body = input_body;
      output_body = output_body;
      tool_input = Option.map (parse_json_anyvalue ext) (get attrs "gen_ai.tool.call.arguments");
      tool_output = Option.map (parse_json_anyvalue ext) (get attrs "gen_ai.tool.call.result");
      tool_name = str_attr attrs "gen_ai.tool.name";
      tool_side_effect = str_attr attrs "halley.tool_side_effect";
      project_id = uuid_attr ext attrs "halley.project_id";
      run_name =
          or_if_empty (str_attr attrs "halley.run_name") (str_attr attrs "traceloop.entity.name");
      run_tags = tags_attr ext attrs "halley.run_tags";
      run_env = str_attr attrs "halley.run_env";
      pricing_version_id = uuid_attr ext attrs "halley.pricing_version_id";
      status = status_from_code span.status_code;
      error_message = span.status_message;
      attributes = extra_attributes ext consumed_keys attrs;
      is_run_root =
          str_eq (operation attrs) "invoke_agent"
          || (str_eq (str_attr attrs "halley.run.kind") "agent"
              || str_eq (str_attr attrs "traceloop.span.kind") "agent");
    }
