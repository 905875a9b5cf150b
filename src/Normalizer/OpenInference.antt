-- ===== src/Normalizer/OpenInference.antt =====
-- ingester/src/normalizer/openinference.rs: OpenInference spans.
use mathlib.Core.Option
use halley.Common.{
  String, Bool, false, Option, none, some, List, [], ◌∷◌, ◌||◌, str_eq, unwrap_or, and_then,
  or_else, if◌then◌else◌,
}
use halley.Common.BTreeMap.{get, insert, contains_key, BTreeMap}
use halley.External.{External}
use halley.Json.{Value, text_object}
use halley.Domain.OtlpSpan.{AnyValue, OtlpSpan, as_str, to_attr_string}
use halley.Domain.CanonicalSpan.{CanonicalSpan}
use halley.Normalizer.Attrs.{
  Attributes, str_attr, u32_attr, uuid_attr, tags_attr, extra_attributes, parse_json_anyvalue,
  status_from_code,
}

abbrev pub consumed_keys : List String
consumed_keys =
    "openinference.span.kind" ∷ "llm.system" ∷ "llm.model_name" ∷ "llm.token_count.prompt"
    ∷ "llm.token_count.completion" ∷ "llm.token_count.total" ∷ "llm.invocation_parameters"
    ∷ "input.value" ∷ "input.mime_type" ∷ "output.value" ∷ "output.mime_type" ∷ "tool.name"
    ∷ "tool.parameters" ∷ "halley.project_id" ∷ "halley.pricing_version_id" ∷ "halley.run_name"
    ∷ "halley.run_tags" ∷ "halley.run_env" ∷ "halley.dialect_version" ∷ "halley.tool_side_effect"
    ∷ []

unfoldable pub detect : OtlpSpan → Bool
unfolding contains_key
detect span =
    contains_key span.attributes "openinference.span.kind"
    || contains_key span.attributes "llm.model_name"

unfoldable pub openinference_span_kind_to_operation : String → String
openinference_span_kind_to_operation kind =
    if str_eq kind "LLM"
    then "chat"
    else (if str_eq kind "TOOL"
        then "execute_tool"
        else (if str_eq kind "RETRIEVER" || str_eq kind "RERANKER"
            then "retrieve"
            else (if str_eq kind "AGENT" || str_eq kind "CHAIN"
                then "invoke_agent"
                else (if str_eq kind "EMBEDDING" then "embeddings" else kind))))

abbrev is_json_mime : Option AnyValue → Bool
is_json_mime mime_type =
    unwrap_or (and_then (and_then mime_type as_str) (λ m. some (str_eq m "application/json"))) false

-- JSON only where the MIME type says so and the text parses; any other text is wrapped.
unfoldable pub parse_body_value : External → Option AnyValue → Option AnyValue → Option Value
unfolding as_str
parse_body_value ext value mime_type = and_then (and_then value as_str) λ raw.
    if is_json_mime mime_type
    then or_else (ext.from_str raw) (some (text_object raw))
    else some (text_object raw)

-- `llm.invocation_parameters` is consumed, and then put back.
abbrev pub keep_parameters : External → Attributes → BTreeMap String → BTreeMap String
keep_parameters ext attrs extra = elim (get attrs "llm.invocation_parameters") [
  | none ↦ extra
  | some v ↦ insert "llm.invocation_parameters" (to_attr_string ext v) extra
]

abbrev pub operation : Attributes → String
operation attrs = openinference_span_kind_to_operation (str_attr attrs "openinference.span.kind")

unfoldable pub normalize : External → OtlpSpan → CanonicalSpan
unfolding str_attr u32_attr uuid_attr tags_attr extra_attributes parse_json_anyvalue
    status_from_code get openinference_span_kind_to_operation parse_body_value insert to_attr_string
normalize ext span =
    let attrs = span.attributes in
    record {
      trace_id = span.trace_id;
      span_id = span.span_id;
      parent_span_id = span.parent_span_id;
      start_time_unix_nano = span.start_time_unix_nano;
      end_time_unix_nano = span.end_time_unix_nano;
      source_dialect = "openinference";
      dialect_version = str_attr attrs "halley.dialect_version";
      gen_ai_system = str_attr attrs "llm.system";
      gen_ai_operation = operation attrs;
      gen_ai_request_model = str_attr attrs "llm.model_name";
      gen_ai_response_model = str_attr attrs "llm.model_name";
      gen_ai_usage_input_tokens = u32_attr attrs "llm.token_count.prompt";
      gen_ai_usage_output_tokens = u32_attr attrs "llm.token_count.completion";
      gen_ai_response_finish_reason = "";
      input_body = parse_body_value ext (get attrs "input.value") (get attrs "input.mime_type");
      output_body = parse_body_value ext (get attrs "output.value") (get attrs "output.mime_type");
      tool_input = Option.map (parse_json_anyvalue ext) (get attrs "tool.parameters");
      tool_output = none;
      tool_name = str_attr attrs "tool.name";
      tool_side_effect = str_attr attrs "halley.tool_side_effect";
      project_id = uuid_attr ext attrs "halley.project_id";
      run_name = str_attr attrs "halley.run_name";
      run_tags = tags_attr ext attrs "halley.run_tags";
      run_env = str_attr attrs "halley.run_env";
      pricing_version_id = uuid_attr ext attrs "halley.pricing_version_id";
      status = status_from_code span.status_code;
      error_message = span.status_message;
      attributes = keep_parameters ext attrs (extra_attributes ext consumed_keys attrs);
      is_run_root =
          str_eq (operation attrs) "invoke_agent"
          || str_eq (str_attr attrs "halley.run.kind") "agent";
    }
