-- ===== src/Normalizer/HalleyRaw.antt =====
-- ingester/src/normalizer/halley_raw.rs: the dialect of POST /v1/spans/json.
pub mod Lookup
pub mod Plain
pub mod Unpack
pub mod Refines
use halley.Common.{
  String, Bool, false, Option, none, some, List, [], ◌∷◌, ◌||◌, str_eq, unwrap_or, and_then,
  or_else,
}
use halley.Common.Int.{pos}
use halley.Common.BTreeMap.{get, insert, or_insert}
use halley.External.{External}
use halley.Json.{Value}
use halley.Domain.Errors.{Outcome, ok, ◌>>=◌}
use halley.Domain.OtlpSpan.{AnyValue, OtlpSpan, as_str, to_json}
use halley.Domain.Rows.{status_from_str}
use halley.Domain.Span.{RawSpan, decode_hex_id, decode_opt}
use halley.Domain.CanonicalSpan.{CanonicalSpan}
use halley.Normalizer.Attrs.{Attributes, str_attr, u32_attr, uuid_attr, tags_attr, extra_attributes}

abbrev pub known_keys : List String
known_keys =
    "source_dialect" ∷ "dialect_version" ∷ "run_id" ∷ "project_id" ∷ "gen_ai_system"
    ∷ "gen_ai_operation" ∷ "gen_ai_request_model" ∷ "gen_ai_response_model"
    ∷ "gen_ai_usage_input_tokens" ∷ "gen_ai_usage_output_tokens" ∷ "gen_ai_response_finish_reason"
    ∷ "input_body" ∷ "output_body" ∷ "tool_name" ∷ "tool_input" ∷ "tool_output" ∷ "tool_side_effect"
    ∷ "run_name" ∷ "run_tags" ∷ "run_env" ∷ "pricing_version_id" ∷ "status" ∷ "error_message" ∷ []

unfoldable pub detect : OtlpSpan → Bool
unfolding get as_str
detect span =
    unwrap_or
      (and_then (and_then (get span.attributes "source_dialect") as_str)
        (λ s. some (str_eq s "halley-raw")))
      false

-- A text that parses is that JSON value; any other value is its own JSON.
body_of : External → AnyValue → Option Value
unfolding as_str to_json
body_of ext v = or_else (and_then (as_str v) ext.from_str) (some (to_json ext v))

unfoldable pub json_attr : External → Attributes → String → Option Value
unfolding body_of get
json_attr ext attrs key = and_then (get attrs key) (body_of ext)

unfoldable pub normalize : External → OtlpSpan → CanonicalSpan
unfolding str_attr u32_attr uuid_attr tags_attr extra_attributes json_attr status_from_str
normalize ext span =
    let attrs = span.attributes in
    record {
      trace_id = span.trace_id;
      span_id = span.span_id;
      parent_span_id = span.parent_span_id;
      start_time_unix_nano = span.start_time_unix_nano;
      end_time_unix_nano = span.end_time_unix_nano;
      source_dialect = "halley-raw";
      dialect_version = str_attr attrs "dialect_version";
      gen_ai_system = str_attr attrs "gen_ai_system";
      gen_ai_operation = str_attr attrs "gen_ai_operation";
      gen_ai_request_model = str_attr attrs "gen_ai_request_model";
      gen_ai_response_model = str_attr attrs "gen_ai_response_model";
      gen_ai_usage_input_tokens = u32_attr attrs "gen_ai_usage_input_tokens";
      gen_ai_usage_output_tokens = u32_attr attrs "gen_ai_usage_output_tokens";
      gen_ai_response_finish_reason = str_attr attrs "gen_ai_response_finish_reason";
      input_body = json_attr ext attrs "input_body";
      output_body = json_attr ext attrs "output_body";
      tool_input = json_attr ext attrs "tool_input";
      tool_output = json_attr ext attrs "tool_output";
      tool_name = str_attr attrs "tool_name";
      tool_side_effect = str_attr attrs "tool_side_effect";
      project_id = uuid_attr ext attrs "project_id";
      run_name = str_attr attrs "run_name";
      run_tags = tags_attr ext attrs "run_tags";
      run_env = str_attr attrs "run_env";
      pricing_version_id = uuid_attr ext attrs "pricing_version_id";
      status = status_from_str (str_attr attrs "status");
      error_message = str_attr attrs "error_message";
      attributes = extra_attributes ext known_keys attrs;
      is_run_root =
          str_eq (str_attr attrs "gen_ai_operation") "invoke_agent"
          || str_eq (str_attr attrs "halley.run.kind") "agent";
    }

abbrev insert_str : String → String → Attributes → Attributes
insert_str k s m = insert k (AnyValue.string s) m

abbrev insert_body : External → String → Option Value → Attributes → Attributes
insert_body ext k none m = m
insert_body ext k (some v) m = insert_str k (ext.to_string v) m

abbrev insert_opt : String → Option String → Attributes → Attributes
insert_opt k none m = m
insert_opt k (some s) m = insert_str k s m

-- The loop over the caller's own attributes: a key that is there already is kept.
unfoldable pub pass_through : Attributes → List (String × String) → Attributes
unfolding or_insert
pass_through m [] = m
pass_through m ((k, v) ∷ l) = pass_through (or_insert k (AnyValue.string v) m) l

-- The attributes that stand for the fields of the span.
unfoldable pub packed : External → RawSpan → Attributes
unfolding insert
packed ext raw =
    let a = insert_str "source_dialect" "halley-raw" [] in
    let a = insert_str "dialect_version" raw.dialect_version a in
    let a = insert_str "project_id" (ext.uuid_to_string raw.project_id) a in
    let a = insert_opt "run_id" raw.run_id a in
    let a = insert_str "gen_ai_system" raw.gen_ai_system a in
    let a = insert_str "gen_ai_operation" raw.gen_ai_operation a in
    let a = insert_str "gen_ai_request_model" raw.gen_ai_request_model a in
    let a = insert_str "gen_ai_response_model" raw.gen_ai_response_model a in
    let a =
      insert "gen_ai_usage_input_tokens" (AnyValue.int (pos raw.gen_ai_usage_input_tokens)) a in
    let a =
      insert "gen_ai_usage_output_tokens" (AnyValue.int (pos raw.gen_ai_usage_output_tokens)) a in
    let a = insert_str "gen_ai_response_finish_reason" raw.gen_ai_response_finish_reason a in
    let a = insert_body ext "input_body" raw.input_body a in
    let a = insert_body ext "output_body" raw.output_body a in
    let a = insert_body ext "tool_input" raw.tool_input a in
    let a = insert_body ext "tool_output" raw.tool_output a in
    let a = insert_str "tool_name" raw.tool_name a in
    let a = insert_str "tool_side_effect" raw.tool_side_effect a in
    let a = insert_str "run_name" raw.run_name a in
    let a = insert_str "run_tags" (ext.tags_to_string raw.run_tags) a in
    let a = insert_str "run_env" raw.run_env a in
    let a = insert_str "pricing_version_id" (ext.uuid_to_string raw.pricing_version_id) a in
    let a = insert_str "status" raw.status a in insert_str "error_message" raw.error_message a

unfoldable pub raw_span_to_otlp : External → RawSpan → Outcome OtlpSpan
unfolding packed pass_through decode_hex_id
raw_span_to_otlp ext raw = do
  trace_id ← decode_hex_id ext 16 raw.trace_id "trace_id"
  span_id ← decode_hex_id ext 8 raw.span_id "span_id"
  parent_span_id ← decode_opt ext 8 "parent_span_id" raw.parent_span_id
  ok (record {
    trace_id = trace_id;
    span_id = span_id;
    parent_span_id = parent_span_id;
    name = "";
    kind = pos 0;
    start_time_unix_nano = raw.start_time_unix_nano;
    end_time_unix_nano = raw.end_time_unix_nano;
    attributes = pass_through (packed ext raw) raw.attributes;
    events = [];
    status_code = pos 0;
    status_message = "";
  })
