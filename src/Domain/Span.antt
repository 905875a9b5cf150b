-- ===== src/Domain/Span.antt =====
-- The JSON span of ingester/src/domain/span.rs, the decoding of its identifiers and its conversion.
pub mod Decode
pub mod Sorted
use Prim.Native.Nat.{Ordering}
use Prim.Native.String.{len, compare, ◌++◌}
use halley.Common.{
  ℕ, ◌*◌, String, Bool, Option, none, some, List, [], ◌∷◌, ◌==◌, str_eq, length, ◌||◌, unwrap_or,
  if◌then◌else◌,
}
use halley.Common.Int.{nat_text}
use halley.Common.BTreeMap.{get}
use halley.External.{External, Uuid, Decoded, bytes, malformed}
use halley.Json.{Value}
use halley.Domain.Errors.{invalid_field, Outcome, ok, err, panic, ◌>>=◌, transpose}
use halley.Domain.Rows.{ObservationRow, BodyRow, hash_body, status_from_str}

-- `attributes` is a `HashMap`: its entries in the order in which it iterates.
pub record RawSpan : Type 0 where
  pub trace_id : String
  pub span_id : String
  pub parent_span_id : Option String
  pub run_id : Option String
  pub project_id : Uuid
  pub start_time_unix_nano : ℕ
  pub end_time_unix_nano : ℕ
  pub source_dialect : String
  pub dialect_version : String
  pub gen_ai_system : String
  pub gen_ai_operation : String
  pub gen_ai_request_model : String
  pub gen_ai_response_model : String
  pub gen_ai_usage_input_tokens : ℕ
  pub gen_ai_usage_output_tokens : ℕ
  pub gen_ai_response_finish_reason : String
  pub input_body : Option Value
  pub output_body : Option Value
  pub tool_name : String
  pub tool_input : Option Value
  pub tool_output : Option Value
  pub tool_side_effect : String
  pub run_name : String
  pub run_tags : List String
  pub run_env : String
  pub pricing_version_id : Uuid
  pub status : String
  pub error_message : String
  pub attributes : List (String × String)

-- `arr.copy_from_slice(&bytes)` panics when the lengths differ.
copy_from_slice : ℕ → List ℕ → Outcome (List ℕ)
copy_from_slice n bs = if length bs == n then ok bs else panic

decoded : ℕ → String → Decoded → Outcome (List ℕ)
unfolding copy_from_slice
decoded n name (bytes bs) = copy_from_slice n bs
decoded n name (malformed e) = err (invalid_field name ("invalid hex: " ++ e))

-- `s.len()` counts the bytes of the UTF-8 text.
unfoldable pub decode_hex_id : External → ℕ → String → String → Outcome (List ℕ)
unfolding decoded nat_text
decode_hex_id ext n s name =
    let expected_len = n * 2 in
    if len s == expected_len
    then decoded n name (ext.hex_decode s)
    else err (
        invalid_field name
          ("expected " ++ (nat_text expected_len ++ (" hex chars, got " ++ nat_text (len s)))))

abbrev pub decode_opt : External → ℕ → String → Option String → Outcome (Option (List ℕ))
decode_opt ext n name none = transpose none
decode_opt ext n name (some s) = transpose (some (decode_hex_id ext n s name))

-- `sort_by` on the keys: a stable sort.
insert_entry : String × String → List (String × String) → List (String × String)
insert_entry (k, v) [] = (k, v) ∷ []
insert_entry (k, v) ((j, w) ∷ l) = elim (compare k j) [
  | Ordering.gt ↦ (j, w) ∷ insert_entry (k, v) l
  | _ ↦ (k, v) ∷ (j, w) ∷ l
]

unfoldable pub sort_entries : List (String × String) → List (String × String)
unfolding insert_entry
sort_entries [] = []
sort_entries (e ∷ l) = insert_entry e (sort_entries l)

abbrev pub run_id_of : External → Option String → List ℕ → Outcome (List ℕ)
run_id_of ext none trace_id = ok trace_id
run_id_of ext (some s) trace_id = decode_hex_id ext 16 s "run_id"

abbrev pub raw_is_run_root : RawSpan → Bool
raw_is_run_root raw =
    str_eq raw.gen_ai_operation "invoke_agent"
    || str_eq (unwrap_or (get raw.attributes "halley.run.kind") "") "agent"

-- The rows, once the identifiers are decoded.
unfoldable pub raw_rows :
    External
    → ℕ
    → RawSpan
    → List ℕ
    → List ℕ
    → Option (List ℕ)
    → List ℕ
    → ObservationRow × List BodyRow
unfolding hash_body status_from_str sort_entries get
raw_rows ext now_us raw trace_id span_id parent_span_id run_id =
    let (input_body_hash, rows1) = hash_body ext raw.input_body raw.project_id now_us [] in
    let (output_body_hash, rows2) = hash_body ext raw.output_body raw.project_id now_us rows1 in
    let (tool_input_hash, rows3) = hash_body ext raw.tool_input raw.project_id now_us rows2 in
    let (tool_output_hash, rows4) = hash_body ext raw.tool_output raw.project_id now_us rows3 in
    (
      record {
        trace_id = trace_id;
        span_id = span_id;
        parent_span_id = parent_span_id;
        run_id = run_id;
        project_id = raw.project_id;
        start_time = raw.start_time_unix_nano;
        end_time = raw.end_time_unix_nano;
        source_dialect = raw.source_dialect;
        dialect_version = raw.dialect_version;
        gen_ai_system = raw.gen_ai_system;
        gen_ai_operation = raw.gen_ai_operation;
        gen_ai_request_model = raw.gen_ai_request_model;
        gen_ai_response_model = raw.gen_ai_response_model;
        gen_ai_usage_input_tokens = raw.gen_ai_usage_input_tokens;
        gen_ai_usage_output_tokens = raw.gen_ai_usage_output_tokens;
        gen_ai_response_finish_reason = raw.gen_ai_response_finish_reason;
        input_body_hash = input_body_hash;
        output_body_hash = output_body_hash;
        tool_input_hash = tool_input_hash;
        tool_output_hash = tool_output_hash;
        tool_name = raw.tool_name;
        tool_side_effect = raw.tool_side_effect;
        run_name = raw.run_name;
        run_tags = raw.run_tags;
        run_env = raw.run_env;
        pricing_version_id = raw.pricing_version_id;
        status = status_from_str raw.status;
        error_message = raw.error_message;
        attributes = sort_entries raw.attributes;
        is_run_root = raw_is_run_root raw;
      },
      rows4,
    )

unfoldable pub try_from : External → ℕ → RawSpan → Outcome (ObservationRow × List BodyRow)
unfolding raw_rows decode_hex_id
try_from ext now_us raw = do
  trace_id ← decode_hex_id ext 16 raw.trace_id "trace_id"
  span_id ← decode_hex_id ext 8 raw.span_id "span_id"
  parent_span_id ← decode_opt ext 8 "parent_span_id" raw.parent_span_id
  run_id ← run_id_of ext raw.run_id trace_id
  ok (raw_rows ext now_us raw trace_id span_id parent_span_id run_id)
