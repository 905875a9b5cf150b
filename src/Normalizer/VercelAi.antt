-- ===== src/Normalizer/VercelAi.antt =====
-- ingester/src/normalizer/vercel_ai.rs: Vercel AI SDK spans.

use mathlib.Core.Option
use halley.Common.{
  ℕ, String, Bool, Option, List, [], ◌∷◌, ◌||◌, str_eq, unwrap_or, and_then, or_else, starts_with,
  if◌then◌else◌,
}
use halley.Common.BTreeMap.{get, contains_key}
use halley.External.{External}
use halley.Json.{Value, text_object}
use halley.Domain.OtlpSpan.{AnyValue, OtlpSpan, as_u32, to_json}
use halley.Domain.CanonicalSpan.{CanonicalSpan}
use halley.Normalizer.Attrs.{
  Attributes, str_attr, uuid_attr, tags_attr, extra_attributes, parse_json_anyvalue,
  status_from_code, finish_reason, or_if_empty,
}

abbrev pub consumed_keys : List String
consumed_keys =
    "ai.operationId" ∷ "ai.model.id" ∷ "ai.model.provider" ∷ "ai.usage.promptTokens"
    ∷ "ai.usage.completionTokens" ∷ "ai.response.model" ∷ "ai.response.finishReason" ∷ "ai.prompt"
    ∷ "ai.prompt.messages" ∷ "ai.response.text" ∷ "ai.response.object" ∷ "ai.toolCall.name"
    ∷ "ai.toolCall.id" ∷ "ai.toolCall.args" ∷ "ai.toolCall.result" ∷ "gen_ai.system"
    ∷ "gen_ai.provider.name" ∷ "gen_ai.request.model" ∷ "gen_ai.response.model"
    ∷ "gen_ai.usage.input_tokens" ∷ "gen_ai.usage.output_tokens" ∷ "gen_ai.response.finish_reasons"
    ∷ "gen_ai.response.finish_reason" ∷ "halley.project_id" ∷ "halley.pricing_version_id"
    ∷ "halley.run_name" ∷ "halley.run_tags" ∷ "halley.run_env" ∷ "halley.dialect_version"
    ∷ "halley.tool_side_effect" ∷ []

unfoldable pub detect : OtlpSpan → Bool
unfolding contains_key
detect span =
    contains_key span.attributes "ai.operationId"
    || (contains_key span.attributes "ai.model.id"
        || contains_key span.attributes "ai.model.provider")

unfoldable pub vercel_operation_id_to_operation : String → String
vercel_operation_id_to_operation op_id =
    if str_eq op_id "ai.generateText" || str_eq op_id "ai.generateText.doGenerate"
    then "chat"
    else (if str_eq op_id "ai.streamText" || str_eq op_id "ai.streamText.doStream"
        then "chat"
        else (if str_eq op_id "ai.embed" || str_eq op_id "ai.embed.doEmbed"
            then "embeddings"
            else (if str_eq op_id "ai.embedMany" || str_eq op_id "ai.embedMany.doEmbed"
                then "embeddings"
                else (if str_eq op_id "ai.toolCall" then "execute_tool" else op_id))))

unfoldable pub u32_attr_with_fallback : Attributes → String → String → ℕ
unfolding get as_u32
u32_attr_with_fallback attrs primary fallback =
    unwrap_or (and_then (get attrs primary) as_u32)
      (unwrap_or (and_then (get attrs fallback) as_u32) 0)

unfoldable pub parse_json_or_wrap : External → AnyValue → Value
unfolding to_json
parse_json_or_wrap ext (AnyValue.string s) = unwrap_or (ext.from_str s) (text_object s)
parse_json_or_wrap ext v = to_json ext v

-- The first key that is there, or else the second.
abbrev first_body : External → Attributes → String → String → Option Value
first_body ext attrs a b = Option.map (parse_json_or_wrap ext) (or_else (get attrs a) (get attrs b))

unfoldable pub normalize : External → OtlpSpan → CanonicalSpan
unfolding str_attr u32_attr_with_fallback uuid_attr tags_attr extra_attributes parse_json_anyvalue
    status_from_code finish_reason get vercel_operation_id_to_operation parse_json_or_wrap
normalize ext span =
    let attrs = span.attributes in
    let operation_id = str_attr attrs "ai.operationId" in
    record {
      trace_id = span.trace_id;
      span_id = span.span_id;
      parent_span_id = span.parent_span_id;
      start_time_unix_nano = span.start_time_unix_nano;
      end_time_unix_nano = span.end_time_unix_nano;
      source_dialect = "vercel-ai";
      dialect_version = str_attr attrs "halley.dialect_version";
      gen_ai_system =
          or_if_empty (str_attr attrs "ai.model.provider")
            (or_if_empty (str_attr attrs "gen_ai.provider.name") (str_attr attrs "gen_ai.system"));
      gen_ai_operation = vercel_operation_id_to_operation operation_id;
      gen_ai_request_model =
          or_if_empty (str_attr attrs "ai.model.id") (str_attr attrs "gen_ai.request.model");
      gen_ai_response_model =
          or_if_empty (str_attr attrs "ai.response.model") (str_attr attrs "gen_ai.response.model");
      gen_ai_usage_input_tokens =
          u32_attr_with_fallback attrs "ai.usage.promptTokens" "gen_ai.usage.input_tokens";
      gen_ai_usage_output_tokens =
          u32_attr_with_fallback attrs "ai.usage.completionTokens" "gen_ai.usage.output_tokens";
      gen_ai_response_finish_reason =
          or_if_empty (str_attr attrs "ai.response.finishReason") (finish_reason attrs);
      input_body = first_body ext attrs "ai.prompt" "ai.prompt.messages";
      output_body = first_body ext attrs "ai.response.text" "ai.response.object";
      tool_input = Option.map (parse_json_anyvalue ext) (get attrs "ai.toolCall.args");
      tool_output = Option.map (parse_json_anyvalue ext) (get attrs "ai.toolCall.result");
      tool_name = str_attr attrs "ai.toolCall.name";
      tool_side_effect = str_attr attrs "halley.tool_side_effect";
      project_id = uuid_attr ext attrs "halley.project_id";
      run_name = str_attr attrs "halley.run_name";
      run_tags = tags_attr ext attrs "halley.run_tags";
      run_env = str_attr attrs "halley.run_env";
      pricing_version_id = uuid_attr ext attrs "halley.pricing_version_id";
      status = status_from_code span.status_code;
      error_message = span.status_message;
      attributes = extra_attributes ext consumed_keys attrs;
      is_run_root =
          starts_with operation_id "ai.agent" || str_eq (str_attr attrs "halley.run.kind") "agent";
    }
