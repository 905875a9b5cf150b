-- ===== src/Normalizer/HalleyRaw/Lookup.antt =====
-- The attributes of a packed span: lookups of the fields, and of the caller's own attributes.
use halley.Common.{
  String, ◌≡◌, ◌∙◌, false, Option, none, some, List, [], ◌∷◌, str_eq, if◌then◌else◌, or_else,
  contains, contains-eq-false, arith, eq_iff,
}
use halley.Common.Int.{pos}
use halley.Common.BTreeMap.{get, or_insert}
use halley.Common.BTreeMap.Laws.{get-insert, get-or_insert, IsSorted, insert-IsSorted}
use halley.External.{External}
use halley.Json.{Value}
use halley.Domain.OtlpSpan.{AnyValue}
use halley.Domain.Span.{RawSpan}
use halley.Normalizer.Attrs.{Attributes}
use halley.Normalizer.HalleyRaw.{known_keys, insert_opt, insert_body, packed, pass_through}

abbrev pub text_value : Option String → Option AnyValue
text_value none = none
text_value (some s) = some (AnyValue.string s)

abbrev pub body_value : External → Option Value → Option AnyValue
body_value ext none = none
body_value ext (some v) = some (AnyValue.string (ext.to_string v))

get-insert_opt :
    (k j : String) (o : Option String) (m : Attributes)
    → get (insert_opt k o m) j ≡ (if str_eq k j then or_else (text_value o) (get m j) else get m j)
get-insert_opt k j none m = ground arith
get-insert_opt k j (some s) m = ground (arith, get-insert k j (AnyValue.string s) m)

get-insert_body :
    (ext : External) (k j : String) (o : Option Value) (m : Attributes)
    → get (insert_body ext k o m) j
      ≡ (if str_eq k j then or_else (body_value ext o) (get m j) else get m j)
get-insert_body ext k j none m = ground arith
get-insert_body ext k j (some v) m =
    ground (arith, get-insert k j (AnyValue.string (ext.to_string v)) m)

-- The first entry of the caller with a key is kept, unless the map has the key already.
pub get-pass_through :
    (m : Attributes) (l : List (String × String)) (k : String)
    → get (pass_through m l) k ≡ or_else (get m k) (text_value (get l k))
unfolding pass_through get
get-pass_through m [] k = ground arith
get-pass_through m ((j, v) ∷ l) k =
    get-pass_through (or_insert j (AnyValue.string v) m) l k
    ∙ ground (arith, get-or_insert j k (AnyValue.string v) m, eq_iff j k)

or_insert-IsSorted :
    (k : String) (v : AnyValue) (m : Attributes) → IsSorted m → IsSorted (or_insert k v m)
unfolding or_insert
or_insert-IsSorted k v m s = ground (arith, insert-IsSorted k v m s)

pub pass_through-IsSorted :
    (m : Attributes) (l : List (String × String)) → IsSorted m → IsSorted (pass_through m l)
unfolding pass_through
pass_through-IsSorted m [] s = s
pass_through-IsSorted m ((k, v) ∷ l) s =
    pass_through-IsSorted (or_insert k (AnyValue.string v) m) l
      (or_insert-IsSorted k (AnyValue.string v) m s)

insert_opt-IsSorted :
    (k : String) (o : Option String) (m : Attributes) → IsSorted m → IsSorted (insert_opt k o m)
insert_opt-IsSorted k none m s = s
insert_opt-IsSorted k (some v) m s = insert-IsSorted k (AnyValue.string v) m s

insert_body-IsSorted :
    (ext : External) (k : String) (o : Option Value) (m : Attributes)
    → IsSorted m
    → IsSorted (insert_body ext k o m)
insert_body-IsSorted ext k none m s = s
insert_body-IsSorted ext k (some v) m s = insert-IsSorted k (AnyValue.string (ext.to_string v)) m s

ruleset packed_rules = (get-insert, get-insert_opt, get-insert_body)

-- What the packed attributes hold at each key.
pub record Packed (ext : External) (raw : RawSpan) (m : Attributes) : Type 0 where
  pub sorted : IsSorted m
  pub source_dialect : get m "source_dialect" ≡ some (AnyValue.string "halley-raw")
  pub dialect_version : get m "dialect_version" ≡ some (AnyValue.string raw.dialect_version)
  pub gen_ai_system : get m "gen_ai_system" ≡ some (AnyValue.string raw.gen_ai_system)
  pub gen_ai_operation : get m "gen_ai_operation" ≡ some (AnyValue.string raw.gen_ai_operation)
  pub gen_ai_request_model :
      get m "gen_ai_request_model" ≡ some (AnyValue.string raw.gen_ai_request_model)
  pub gen_ai_response_model :
      get m "gen_ai_response_model" ≡ some (AnyValue.string raw.gen_ai_response_model)
  pub gen_ai_response_finish_reason :
      get m "gen_ai_response_finish_reason"
      ≡ some (AnyValue.string raw.gen_ai_response_finish_reason)
  pub tool_name : get m "tool_name" ≡ some (AnyValue.string raw.tool_name)
  pub tool_side_effect : get m "tool_side_effect" ≡ some (AnyValue.string raw.tool_side_effect)
  pub run_name : get m "run_name" ≡ some (AnyValue.string raw.run_name)
  pub run_env : get m "run_env" ≡ some (AnyValue.string raw.run_env)
  pub status : get m "status" ≡ some (AnyValue.string raw.status)
  pub error_message : get m "error_message" ≡ some (AnyValue.string raw.error_message)
  pub project_id : get m "project_id" ≡ some (AnyValue.string (ext.uuid_to_string raw.project_id))
  pub pricing_version_id :
      get m "pricing_version_id"
      ≡ some (AnyValue.string (ext.uuid_to_string raw.pricing_version_id))
  pub run_tags : get m "run_tags" ≡ some (AnyValue.string (ext.tags_to_string raw.run_tags))
  pub gen_ai_usage_input_tokens :
      get m "gen_ai_usage_input_tokens" ≡ some (AnyValue.int (pos raw.gen_ai_usage_input_tokens))
  pub gen_ai_usage_output_tokens :
      get m "gen_ai_usage_output_tokens" ≡ some (AnyValue.int (pos raw.gen_ai_usage_output_tokens))
  pub input_body : get m "input_body" ≡ body_value ext raw.input_body
  pub output_body : get m "output_body" ≡ body_value ext raw.output_body
  pub tool_input : get m "tool_input" ≡ body_value ext raw.tool_input
  pub tool_output : get m "tool_output" ≡ body_value ext raw.tool_output
  pub other : (k : String) → contains known_keys k ≡ false → get m k ≡ none

pub packed-Packed : (ext : External) (raw : RawSpan) → Packed ext raw (packed ext raw)
unfolding packed get
packed-Packed ext raw = record {
  sorted = search (insert-IsSorted, insert_opt-IsSorted, insert_body-IsSorted) depth 40;
  source_dialect = simp packed_rules;
  dialect_version = simp packed_rules;
  gen_ai_system = simp packed_rules;
  gen_ai_operation = simp packed_rules;
  gen_ai_request_model = simp packed_rules;
  gen_ai_response_model = simp packed_rules;
  gen_ai_response_finish_reason = simp packed_rules;
  tool_name = simp packed_rules;
  tool_side_effect = simp packed_rules;
  run_name = simp packed_rules;
  run_env = simp packed_rules;
  status = simp packed_rules;
  error_message = simp packed_rules;
  project_id = simp packed_rules;
  pricing_version_id = simp packed_rules;
  run_tags = simp packed_rules;
  gen_ai_usage_input_tokens = simp packed_rules;
  gen_ai_usage_output_tokens = simp packed_rules;
  input_body = simp packed_rules (ground arith);
  output_body = simp packed_rules (ground arith);
  tool_input = simp packed_rules (ground arith);
  tool_output = simp packed_rules (ground arith);
  other = λ k h.
      let f = contains-eq-false known_keys k h in
      simp (
        packed_rules, f.0, f.1.0, f.1.1.0, f.1.1.1.0, f.1.1.1.1.0, f.1.1.1.1.1.0, f.1.1.1.1.1.1.0,
        f.1.1.1.1.1.1.1.0, f.1.1.1.1.1.1.1.1.0, f.1.1.1.1.1.1.1.1.1.0, f.1.1.1.1.1.1.1.1.1.1.0,
        f.1.1.1.1.1.1.1.1.1.1.1.0, f.1.1.1.1.1.1.1.1.1.1.1.1.0, f.1.1.1.1.1.1.1.1.1.1.1.1.1.0,
        f.1.1.1.1.1.1.1.1.1.1.1.1.1.1.0, f.1.1.1.1.1.1.1.1.1.1.1.1.1.1.1.0,
        f.1.1.1.1.1.1.1.1.1.1.1.1.1.1.1.1.0, f.1.1.1.1.1.1.1.1.1.1.1.1.1.1.1.1.1.0,
        f.1.1.1.1.1.1.1.1.1.1.1.1.1.1.1.1.1.1.0, f.1.1.1.1.1.1.1.1.1.1.1.1.1.1.1.1.1.1.1.0,
        f.1.1.1.1.1.1.1.1.1.1.1.1.1.1.1.1.1.1.1.1.0, f.1.1.1.1.1.1.1.1.1.1.1.1.1.1.1.1.1.1.1.1.1.0,
        f.1.1.1.1.1.1.1.1.1.1.1.1.1.1.1.1.1.1.1.1.1.1.0,
      );
}
