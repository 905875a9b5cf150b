-- ===== src/Domain/CanonicalSpan.antt =====
-- ingester/src/domain/canonical.rs: the normalizer's output, and its rows.
pub mod Stored
use halley.Common.{ℕ, String, Bool, Option, List, []}
use halley.Common.BTreeMap.{BTreeMap}
use halley.External.{External, Uuid}
use halley.Json.{Value}
use halley.Domain.Errors.{Outcome, ok}
use halley.Domain.Rows.{SpanStatus, ObservationRow, BodyRow, hash_body}

pub record CanonicalSpan : Type 0 where
  pub trace_id : List ℕ
  pub span_id : List ℕ
  pub parent_span_id : Option (List ℕ)
  pub start_time_unix_nano : ℕ
  pub end_time_unix_nano : ℕ
  pub source_dialect : String
  pub dialect_version : String
  pub gen_ai_system : String
  pub gen_ai_operation : String
  pub gen_ai_request_model : String
  pub gen_ai_response_model : String
  pub gen_ai_usage_input_tokens : ℕ
  pub gen_ai_usage_output_tokens : ℕ
  pub gen_ai_response_finish_reason : String
  pub input_body : Option Value
  pub output_body : Option Value
  pub tool_input : Option Value
  pub tool_output : Option Value
  pub tool_name : String
  pub tool_side_effect : String
  pub project_id : Uuid
  pub run_name : String
  pub run_tags : List String
  pub run_env : String
  pub pricing_version_id : Uuid
  pub status : SpanStatus
  pub error_message : String
  pub attributes : BTreeMap String
  pub is_run_root : Bool

-- `now_us` is the time of the call, in microseconds since the Unix epoch.
unfoldable pub into_rows : External → ℕ → CanonicalSpan → Outcome (ObservationRow × List BodyRow)
unfolding hash_body
into_rows ext now_us span =
    let (input_body_hash, rows1) = hash_body ext span.input_body span.project_id now_us [] in
    let (output_body_hash, rows2) = hash_body ext span.output_body span.project_id now_us rows1 in
    let (tool_input_hash, rows3) = hash_body ext span.tool_input span.project_id now_us rows2 in
    let (tool_output_hash, rows4) = hash_body ext span.tool_output span.project_id now_us rows3 in
    ok (
      record {
        trace_id = span.trace_id;
        span_id = span.span_id;
        parent_span_id = span.parent_span_id;
        run_id = span.trace_id;
        project_id = span.project_id;
        start_time = span.start_time_unix_nano;
        end_time = span.end_time_unix_nano;
        source_dialect = span.source_dialect;
        dialect_version = span.dialect_version;
        gen_ai_system = span.gen_ai_system;
        gen_ai_operation = span.gen_ai_operation;
        gen_ai_request_model = span.gen_ai_request_model;
        gen_ai_response_model = span.gen_ai_response_model;
        gen_ai_usage_input_tokens = span.gen_ai_usage_input_tokens;
        gen_ai_usage_output_tokens = span.gen_ai_usage_output_tokens;
        gen_ai_response_finish_reason = span.gen_ai_response_finish_reason;
        input_body_hash = input_body_hash;
        output_body_hash = output_body_hash;
        tool_input_hash = tool_input_hash;
        tool_output_hash = tool_output_hash;
        tool_name = span.tool_name;
        tool_side_effect = span.tool_side_effect;
        run_name = span.run_name;
        run_tags = span.run_tags;
        run_env = span.run_env;
        pricing_version_id = span.pricing_version_id;
        status = span.status;
        error_message = span.error_message;
        attributes = span.attributes;
        is_run_root = span.is_run_root;
      },
      rows4,
    )
