-- ===== src/Domain/Rows.antt =====
-- The ClickHouse rows of ingester/src/domain/span.rs, and the hashing of bodies into rows.
use Prim.Native.String.{len}
use halley.Common.{
  ℕ, ◌%◌, ◌^◌, String, Bool, Option, none, some, List, [], ◌∷◌, ◌++◌, str_eq, if◌then◌else◌,
}
use halley.External.{External, Uuid}
use halley.Json.{Value}
use halley.Canonical.{canonicalize_json}

pub data SpanStatus : Type 0 where
  ok error timeout : SpanStatus

unfoldable pub status_from_str : String → SpanStatus
status_from_str s = if str_eq s "error" then error else if str_eq s "timeout" then timeout else ok

pub record ObservationRow : Type 0 where
  pub trace_id : List ℕ
  pub span_id : List ℕ
  pub parent_span_id : Option (List ℕ)
  pub run_id : List ℕ
  pub project_id : Uuid
  pub start_time : ℕ
  pub end_time : ℕ
  pub source_dialect : String
  pub dialect_version : String
  pub gen_ai_system : String
  pub gen_ai_operation : String
  pub gen_ai_request_model : String
  pub gen_ai_response_model : String
  pub gen_ai_usage_input_tokens : ℕ
  pub gen_ai_usage_output_tokens : ℕ
  pub gen_ai_response_finish_reason : String
  pub input_body_hash : Option (List ℕ)
  pub output_body_hash : Option (List ℕ)
  pub tool_input_hash : Option (List ℕ)
  pub tool_output_hash : Option (List ℕ)
  pub tool_name : String
  pub tool_side_effect : String
  pub run_name : String
  pub run_tags : List String
  pub run_env : String
  pub pricing_version_id : Uuid
  pub status : SpanStatus
  pub error_message : String
  pub attributes : List (String × String)
  pub is_run_root : Bool

pub record BodyRow : Type 0 where
  pub body_hash : List ℕ
  pub body : String
  pub content_type : String
  pub byte_size : ℕ
  pub first_seen_at : ℕ
  pub project_id : Uuid

abbrev pub body_row : External → Uuid → ℕ → Value → BodyRow
body_row ext project_id first_seen_at value =
    let canonical = canonicalize_json ext value in
    record {
      body_hash = ext.sha256 canonical;
      body = canonical;
      content_type = "application/json";
      byte_size = len canonical % 2 ^ 32;
      first_seen_at = first_seen_at;
      project_id = project_id;
    }

-- The hash of a body, and `out` with the body's row pushed.
unfoldable pub hash_body :
    External → Option Value → Uuid → ℕ → List BodyRow → Option (List ℕ) × List BodyRow
hash_body ext none project_id first_seen_at out = (none, out)
hash_body ext (some value) project_id first_seen_at out =
    let row = body_row ext project_id first_seen_at value in (some row.body_hash, out ++ row ∷ [])
