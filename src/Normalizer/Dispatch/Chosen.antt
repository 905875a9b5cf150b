-- ===== src/Normalizer/Dispatch/Chosen.antt =====
-- Which adapter a span is given to.
use halley.Common.{
  ◌≡◌, refl, ◌≢◌, ◌↔◌, true, false, List, [], ◌∷◌, ◌++◌, All, arith, Bool-cases, inl, inr,
}
use halley.External.{External}
use halley.Domain.OtlpSpan.{OtlpSpan}
use halley.Domain.CanonicalSpan.{CanonicalSpan}
use halley.Normalizer.Dispatch.{
  ok, err, unknown_dialect, Adapter, halley_raw, open_llmetry, open_inference, vercel_ai,
  otel_gen_ai, dialect_id, detect, adapter_normalize, adapters, normalize_with, normalize,
}

-- The adapter detects the span, and no adapter before it in the list does.
pub record IsChosen (list : List Adapter) (a : Adapter) (span : OtlpSpan) : Type 0 where
  pub before : List Adapter
  pub after : List Adapter
  pub position : list ≡ before ++ a ∷ after
  pub missed : All (λ b. detect b span ≡ false) before
  pub found : detect a span ≡ true

-- The result is what the adapter makes of the span, labelled with the adapter's dialect.
pub record IsMadeBy (ext : External) (a : Adapter) (span : OtlpSpan) (c : CanonicalSpan)
    : Type 0 where
  pub made : adapter_normalize ext a span ≡ ok c
  pub labelled : c.source_dialect ≡ dialect_id a

module _ (ext : External) (span : OtlpSpan) where
  labelled_lem :
      (a : Adapter) (c : CanonicalSpan)
      → adapter_normalize ext a span ≡ ok c
      → c.source_dialect ≡ dialect_id a
  unfolding dialect_id adapter_normalize
  labelled_lem halley_raw c e = ground arith
  labelled_lem open_llmetry c e = ground arith
  labelled_lem open_inference c e = ground arith
  labelled_lem vercel_ai c e = ground arith
  labelled_lem otel_gen_ai c e = ground arith

  adapter-ne-err : (a : Adapter) → adapter_normalize ext a span ≢ err unknown_dialect
  unfolding adapter_normalize
  adapter-ne-err halley_raw e = cc
  adapter-ne-err open_llmetry e = cc
  adapter-ne-err open_inference e = cc
  adapter-ne-err vercel_ai e = cc
  adapter-ne-err otel_gen_ai e = cc

  IsChosen-cons :
      {list : List Adapter} {a : Adapter} (b : Adapter)
      → detect b span ≡ false
      → IsChosen list a span
      → IsChosen (b ∷ list) a span
  IsChosen-cons b miss h = record {
    before = b ∷ h.before;
    after = h.after;
    position = cc h.position;
    missed = (miss, h.missed);
    found = h.found;
  }

  normalize_with-IsChosen :
      (list : List Adapter) (c : CanonicalSpan)
      → normalize_with ext list span ≡ ok c
      → (a : Adapter) × IsChosen list a span × IsMadeBy ext a span c
  unfolding normalize_with
  normalize_with-IsChosen [] c e = cc
  normalize_with-IsChosen (b ∷ list) c e = elim (Bool-cases (detect b span)) [
    | inl hit ↦
        let made : adapter_normalize ext b span ≡ ok c = ground arith in
        (
          b,
          record { before = []; after = list; position = refl; missed = tt; found = hit },
          record { made = made; labelled = labelled_lem b c made },
        )
    | inr miss ↦
        let (a, chosen, made) = normalize_with-IsChosen list c (ground arith) in
        (a, IsChosen-cons b miss chosen, made)
  ]

  unknown_with :
      (list : List Adapter)
      → (normalize_with ext list span ≡ err unknown_dialect) ↔ All (λ a. detect a span ≡ false) list
  unfolding normalize_with
  unknown_with [] = (λ e. tt, λ h. refl)
  unknown_with (b ∷ list) = ground (arith, unknown_with list, adapter-ne-err b)

  -- A span that is normalized was given to the first adapter, in the order halley-raw, openllmetry,
  -- openinference, vercel-ai, otel-genai, that detects it, and the result carries the name of that
  -- adapter's dialect.
  pub normalize_first :
      (c : CanonicalSpan)
      → normalize ext span ≡ ok c
      → (a : Adapter) × IsChosen
          (halley_raw ∷ open_llmetry ∷ open_inference ∷ vercel_ai ∷ otel_gen_ai ∷ [])
          a
          span
        × IsMadeBy ext a span c
  unfolding normalize
  normalize_first c e = normalize_with-IsChosen adapters c e

  -- The dispatch answers `UnknownDialect` exactly when none of the five adapters detects the span.
  pub normalize_unknown :
      (normalize ext span ≡ err unknown_dialect)
      ↔ All
          (λ a. detect a span ≡ false)
          (halley_raw ∷ open_llmetry ∷ open_inference ∷ vercel_ai ∷ otel_gen_ai ∷ [])
  unfolding normalize
  normalize_unknown = unknown_with adapters
