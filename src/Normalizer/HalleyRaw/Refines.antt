-- ===== src/Normalizer/HalleyRaw/Refines.antt =====
-- The path of POST /v1/spans/json through the normalizer, against the direct conversion that it
-- replaces: `TryFrom<RawSpan>` of ingester/src/domain/span.rs.
use mathlib.Core.Path.{subst}
use halley.Common.{ℕ, ◌≡◌, refl, ap, sym, String, Option, none, List}
use halley.External.{External}
use halley.Domain.Errors.{Outcome, ok, err, panic, ◌>>=◌}
use halley.Domain.Rows.{ObservationRow, BodyRow}
use halley.Domain.Span.{RawSpan, decode_hex_id, decode_opt, raw_rows, run_id_of, try_from}
use halley.Domain.CanonicalSpan.{into_rows}
use halley.Normalizer.HalleyRaw.{normalize, raw_span_to_otlp}
use halley.Normalizer.HalleyRaw.Plain.{IsPlain}
use halley.Normalizer.HalleyRaw.Unpack.{packed_span, normalize-packed}

module _ (ext : External) (now : ℕ) (raw : RawSpan) (plain : IsPlain ext raw) where
  abbrev Rows : Type 0
  Rows = ObservationRow × List BodyRow

  into_rows-unpacked :
      (t s : List ℕ) (p : Option (List ℕ))
      → into_rows ext now (normalize ext (packed_span ext raw plain t s p))
        ≡ ok (raw_rows ext now raw t s p t)
  unfolding into_rows raw_rows
  into_rows-unpacked t s p = ap (into_rows ext now) (normalize-packed ext raw plain t s p)

  joined :
      (a b : Outcome (List ℕ)) (c : Outcome (Option (List ℕ)))
      → ((a >>= λ t. b >>= λ s. c >>= λ p. ok (packed_span ext raw plain t s p)) >>= λ span.
          into_rows ext now (normalize ext span))
        ≡ (a >>= λ t.
            b >>= λ s. c >>= λ p. run_id_of ext none t >>= λ r. ok (raw_rows ext now raw t s p r))
  joined (ok t) (ok s) (ok p) = into_rows-unpacked t s p
  joined (ok t) (ok s) (err e) = refl
  joined (ok t) (ok s) panic = refl
  joined (ok t) (err e) c = refl
  joined (ok t) panic c = refl
  joined (err e) b c = refl
  joined panic b c = refl

  -- For a plain span of the dialect, packing it into attributes, normalizing these and hashing the
  -- bodies gives exactly the outcome of the direct conversion: the same rows, or the same error.
  pub into_rows-normalize-eq-try_from :
      (raw_span_to_otlp ext raw >>= λ span. into_rows ext now (normalize ext span))
      ≡ try_from ext now raw
  unfolding raw_span_to_otlp try_from
  into_rows-normalize-eq-try_from =
      subst
        (λ (r : Option String).
          (raw_span_to_otlp ext raw >>= λ span. into_rows ext now (normalize ext span)) ≡ (
            decode_hex_id ext 16 raw.trace_id "trace_id" >>= λ t.
            decode_hex_id ext 8 raw.span_id "span_id" >>= λ s.
            decode_opt ext 8 "parent_span_id" raw.parent_span_id >>= λ p.
            run_id_of ext r t >>= λ i. ok (raw_rows ext now raw t s p i)))
        (sym plain.no_run)
        (joined (decode_hex_id ext 16 raw.trace_id "trace_id")
          (decode_hex_id ext 8 raw.span_id "span_id")
          (decode_opt ext 8 "parent_span_id" raw.parent_span_id))
