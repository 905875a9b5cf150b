-- ===== src/Normalizer/Dispatch/Kept.antt =====
-- What normalization keeps of a span, whatever its dialect.
use mathlib.Core.Option
use mathlib.Core.Path.{subst}
use halley.Common.{
  String, ◌≡◌, refl, Bool, true, false, none, List, ◌||◌, contains, str_eq, not, inl, inr,
  Option-cases, arith, if◌then◌else◌, eq_iff, ◌∙◌,
}
use halley.Common.BTreeMap.{BTreeMap, get}
use halley.Common.BTreeMap.Laws.{get-insert, IsSorted}
use halley.External.{External}
use halley.Domain.OtlpSpan.{OtlpSpan, to_attr_string}
use halley.Domain.CanonicalSpan.{CanonicalSpan}
use halley.Normalizer.Attrs.{Attributes, extra_attributes}
use halley.Normalizer.Attrs.Extra.{get-extra_attributes}
use halley.Normalizer.HalleyRaw
use halley.Normalizer.OpenLlmetry
use halley.Normalizer.OpenInference
use halley.Normalizer.VercelAi
use halley.Normalizer.OtelGenAi
use halley.Normalizer.Dispatch.{
  Normalized, ok, Adapter, halley_raw, open_llmetry, open_inference, vercel_ai, otel_gen_ai,
  dialect_id, adapter_normalize, normalize,
}
use halley.Normalizer.Dispatch.Chosen.{normalize_first}

-- The keys that an adapter reads into fields of its own, and does not keep as attributes.
abbrev pub consumed : Adapter → List String
consumed halley_raw = HalleyRaw.known_keys
consumed open_llmetry = OpenLlmetry.consumed_keys
consumed open_inference = OpenInference.consumed_keys
consumed vercel_ai = VercelAi.consumed_keys
consumed otel_gen_ai = OtelGenAi.consumed_keys

abbrev pub keeps : Adapter → String → Bool
keeps open_inference k =
    str_eq "llm.invocation_parameters" k || not (contains (consumed open_inference) k)
keeps a k = not (contains (consumed a) k)

pub record IsKept (ext : External) (a : Adapter) (span : OtlpSpan) (c : CanonicalSpan)
    : Type 0 where
  pub trace_id : c.trace_id ≡ span.trace_id
  pub span_id : c.span_id ≡ span.span_id
  pub parent_span_id : c.parent_span_id ≡ span.parent_span_id
  pub start_time : c.start_time_unix_nano ≡ span.start_time_unix_nano
  pub end_time : c.end_time_unix_nano ≡ span.end_time_unix_nano
  pub attributes :
      (k : String)
      → get c.attributes k
        ≡ (if keeps a k then Option.map (to_attr_string ext) (get span.attributes k) else none)

ok_injective : {a b : CanonicalSpan} → Normalized.ok a ≡ ok b → a ≡ b
ok_injective e = cc

if-not {ℓ} : {A : Type ℓ} (b : Bool) (x y : A) → (if b then x else y) ≡ (if not b then y else x)
if-not true x y = refl
if-not false x y = refl

-- One consumed key that is put back is kept like a key that is not consumed.
put_back :
    (ext : External) (b : Bool) (k : String) (attrs : Attributes) (extra : BTreeMap String)
    → get extra k ≡ (if b then none else Option.map (to_attr_string ext) (get attrs k))
    → get (OpenInference.keep_parameters ext attrs extra) k ≡ (
        if str_eq "llm.invocation_parameters" k || not b
        then Option.map (to_attr_string ext) (get attrs k)
        else none)
put_back ext b k attrs extra h = elim (Option-cases (get attrs "llm.invocation_parameters")) [
  | inl e ↦
      rw (e, OpenInference.keep_parameters)
        (ground (arith, e, eq_iff "llm.invocation_parameters" k))
  | inr (v, e) ↦
      rw (e, OpenInference.keep_parameters)
        (ground (
          arith,
          e,
          eq_iff "llm.invocation_parameters" k,
          get-insert "llm.invocation_parameters" k (to_attr_string ext v) extra,
        ))
]

module _ (ext : External) (span : OtlpSpan) (sorted : IsSorted span.attributes) where
  kept :
      (keys : List String) (k : String)
      → get (extra_attributes ext keys span.attributes) k ≡ (
          if not (contains keys k)
          then Option.map (to_attr_string ext) (get span.attributes k)
          else none)
  kept keys k =
      get-extra_attributes ext keys span.attributes k sorted
      ∙ if-not (contains keys k) none (Option.map (to_attr_string ext) (get span.attributes k))

  IsKept-halley_raw : IsKept ext halley_raw span (HalleyRaw.normalize ext span)
  unfolding HalleyRaw.normalize
  IsKept-halley_raw = record {
    trace_id = refl;
    span_id = refl;
    parent_span_id = refl;
    start_time = refl;
    end_time = refl;
    attributes = λ k. kept HalleyRaw.known_keys k;
  }

  IsKept-open_llmetry : IsKept ext open_llmetry span (OpenLlmetry.normalize ext span)
  unfolding OpenLlmetry.normalize
  IsKept-open_llmetry = record {
    trace_id = refl;
    span_id = refl;
    parent_span_id = refl;
    start_time = refl;
    end_time = refl;
    attributes = λ k. kept OpenLlmetry.consumed_keys k;
  }

  IsKept-vercel_ai : IsKept ext vercel_ai span (VercelAi.normalize ext span)
  unfolding VercelAi.normalize
  IsKept-vercel_ai = record {
    trace_id = refl;
    span_id = refl;
    parent_span_id = refl;
    start_time = refl;
    end_time = refl;
    attributes = λ k. kept VercelAi.consumed_keys k;
  }

  IsKept-otel_gen_ai : IsKept ext otel_gen_ai span (OtelGenAi.normalize ext span)
  unfolding OtelGenAi.normalize
  IsKept-otel_gen_ai = record {
    trace_id = refl;
    span_id = refl;
    parent_span_id = refl;
    start_time = refl;
    end_time = refl;
    attributes = λ k. kept OtelGenAi.consumed_keys k;
  }

  IsKept-open_inference : IsKept ext open_inference span (OpenInference.normalize ext span)
  unfolding OpenInference.normalize
  IsKept-open_inference = record {
    trace_id = refl;
    span_id = refl;
    parent_span_id = refl;
    start_time = refl;
    end_time = refl;
    attributes = λ k.
        put_back ext (contains OpenInference.consumed_keys k) k span.attributes
          (extra_attributes ext OpenInference.consumed_keys span.attributes)
          (get-extra_attributes ext OpenInference.consumed_keys span.attributes k sorted);
  }

  IsKept-adapter :
      (a : Adapter) (c : CanonicalSpan) → adapter_normalize ext a span ≡ ok c → IsKept ext a span c
  unfolding adapter_normalize
  IsKept-adapter halley_raw c e =
      subst (IsKept ext halley_raw span) (ok_injective e) IsKept-halley_raw
  IsKept-adapter open_llmetry c e =
      subst (IsKept ext open_llmetry span) (ok_injective e) IsKept-open_llmetry
  IsKept-adapter open_inference c e =
      subst (IsKept ext open_inference span) (ok_injective e) IsKept-open_inference
  IsKept-adapter vercel_ai c e = subst (IsKept ext vercel_ai span) (ok_injective e) IsKept-vercel_ai
  IsKept-adapter otel_gen_ai c e =
      subst (IsKept ext otel_gen_ai span) (ok_injective e) IsKept-otel_gen_ai

  -- A span whose attributes have one entry for each key, and that some adapter normalizes, keeps its
  -- identifiers and its times; of its attributes exactly those are kept that the adapter does not
  -- consume, and for OpenInference `llm.invocation_parameters` besides, each as its text.
  pub normalize-IsKept :
      (c : CanonicalSpan)
      → normalize ext span ≡ ok c
      → (a : Adapter) × (c.source_dialect ≡ dialect_id a) × IsKept ext a span c
  normalize-IsKept c e =
      let (a, chosen, made) = normalize_first ext span c e in
      (a, made.labelled, IsKept-adapter a c made.made)
