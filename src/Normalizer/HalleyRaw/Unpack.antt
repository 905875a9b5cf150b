-- ===== src/Normalizer/HalleyRaw/Unpack.antt =====
-- What the adapter reads back from the packed attributes of a plain span.
use halley.Common.{ℕ, ◌≡◌, refl, sym, ◌||◌, Option, List, [], str_eq}
use halley.Common.Int.{pos}
use halley.External.{External}
use halley.Domain.OtlpSpan.{OtlpSpan}
use halley.Domain.Rows.{status_from_str}
use halley.Domain.Span.{RawSpan, raw_is_run_root, sort_entries}
use halley.Domain.CanonicalSpan.{CanonicalSpan}
use halley.Normalizer.HalleyRaw.{normalize}
use halley.Normalizer.HalleyRaw.Plain.{
  IsPlain, attrs, pack, str_of, u32_of, uuid_of, tags_lem, body_lem, kind_lem, extra_lem,
}

module _ (ext : External) (raw : RawSpan) (plain : IsPlain ext raw) where
  -- The canonical span that the packed attributes are read back to.
  abbrev pub unpacked : List ℕ → List ℕ → Option (List ℕ) → CanonicalSpan
  unpacked t s p = record {
    trace_id = t;
    span_id = s;
    parent_span_id = p;
    start_time_unix_nano = raw.start_time_unix_nano;
    end_time_unix_nano = raw.end_time_unix_nano;
    source_dialect = raw.source_dialect;
    dialect_version = raw.dialect_version;
    gen_ai_system = raw.gen_ai_system;
    gen_ai_operation = raw.gen_ai_operation;
    gen_ai_request_model = raw.gen_ai_request_model;
    gen_ai_response_model = raw.gen_ai_response_model;
    gen_ai_usage_input_tokens = raw.gen_ai_usage_input_tokens;
    gen_ai_usage_output_tokens = raw.gen_ai_usage_output_tokens;
    gen_ai_response_finish_reason = raw.gen_ai_response_finish_reason;
    input_body = raw.input_body;
    output_body = raw.output_body;
    tool_input = raw.tool_input;
    tool_output = raw.tool_output;
    tool_name = raw.tool_name;
    tool_side_effect = raw.tool_side_effect;
    project_id = raw.project_id;
    run_name = raw.run_name;
    run_tags = raw.run_tags;
    run_env = raw.run_env;
    pricing_version_id = raw.pricing_version_id;
    status = status_from_str raw.status;
    error_message = raw.error_message;
    attributes = sort_entries raw.attributes;
    is_run_root = raw_is_run_root raw;
  }

  abbrev pub packed_span : List ℕ → List ℕ → Option (List ℕ) → OtlpSpan
  packed_span t s p = record {
    trace_id = t;
    span_id = s;
    parent_span_id = p;
    name = "";
    kind = pos 0;
    start_time_unix_nano = raw.start_time_unix_nano;
    end_time_unix_nano = raw.end_time_unix_nano;
    attributes = attrs ext raw plain;
    events = [];
    status_code = pos 0;
    status_message = "";
  }

  pub normalize-packed :
      (t s : List ℕ) (p : Option (List ℕ)) → normalize ext (packed_span t s p) ≡ unpacked t s p
  unfolding normalize
  normalize-packed t s p =
      let packs = pack ext raw plain in
      λ i. record {
        trace_id = t;
        span_id = s;
        parent_span_id = p;
        start_time_unix_nano = raw.start_time_unix_nano;
        end_time_unix_nano = raw.end_time_unix_nano;
        source_dialect = sym plain.dialect i;
        dialect_version =
            str_of ext raw plain "dialect_version" raw.dialect_version packs.dialect_version i;
        gen_ai_system =
            str_of ext raw plain "gen_ai_system" raw.gen_ai_system packs.gen_ai_system i;
        gen_ai_operation =
            str_of ext raw plain "gen_ai_operation" raw.gen_ai_operation packs.gen_ai_operation i;
        gen_ai_request_model =
            str_of ext raw plain "gen_ai_request_model" raw.gen_ai_request_model
              packs.gen_ai_request_model i;
        gen_ai_response_model =
            str_of ext raw plain "gen_ai_response_model" raw.gen_ai_response_model
              packs.gen_ai_response_model i;
        gen_ai_usage_input_tokens =
            u32_of ext raw plain "gen_ai_usage_input_tokens" raw.gen_ai_usage_input_tokens
              plain.input_tokens packs.gen_ai_usage_input_tokens i;
        gen_ai_usage_output_tokens =
            u32_of ext raw plain "gen_ai_usage_output_tokens" raw.gen_ai_usage_output_tokens
              plain.output_tokens packs.gen_ai_usage_output_tokens i;
        gen_ai_response_finish_reason =
            str_of ext raw plain "gen_ai_response_finish_reason" raw.gen_ai_response_finish_reason
              packs.gen_ai_response_finish_reason i;
        input_body =
            body_lem ext raw plain "input_body" raw.input_body refl plain.input packs.input_body i;
        output_body =
            body_lem ext raw plain "output_body" raw.output_body refl plain.output packs.output_body
              i;
        tool_input =
            body_lem ext raw plain "tool_input" raw.tool_input refl plain.tool_input
              packs.tool_input i;
        tool_output =
            body_lem ext raw plain "tool_output" raw.tool_output refl plain.tool_output
              packs.tool_output i;
        tool_name = str_of ext raw plain "tool_name" raw.tool_name packs.tool_name i;
        tool_side_effect =
            str_of ext raw plain "tool_side_effect" raw.tool_side_effect packs.tool_side_effect i;
        project_id =
            uuid_of ext raw plain "project_id" raw.project_id plain.project packs.project_id i;
        run_name = str_of ext raw plain "run_name" raw.run_name packs.run_name i;
        run_tags = tags_lem ext raw plain i;
        run_env = str_of ext raw plain "run_env" raw.run_env packs.run_env i;
        pricing_version_id =
            uuid_of ext raw plain "pricing_version_id" raw.pricing_version_id plain.pricing
              packs.pricing_version_id i;
        status = status_from_str (str_of ext raw plain "status" raw.status packs.status i);
        error_message =
            str_of ext raw plain "error_message" raw.error_message packs.error_message i;
        attributes = extra_lem ext raw plain i;
        is_run_root =
            str_eq
              (str_of ext raw plain "gen_ai_operation" raw.gen_ai_operation packs.gen_ai_operation
                i)
              "invoke_agent"
            || str_eq (kind_lem ext raw plain i) "agent";
      }
