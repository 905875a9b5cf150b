-- ===== src/Normalizer/Dispatch.antt =====
-- ingester/src/normalizer/mod.rs: the adapters, their registry and the dispatch of a span.
pub mod Chosen
pub mod Kept
use halley.Common.{String, Bool, List, [], ◌∷◌, if◌then◌else◌}
use halley.External.{External}
use halley.Domain.OtlpSpan.{OtlpSpan}
use halley.Domain.CanonicalSpan.{CanonicalSpan}
use halley.Normalizer.HalleyRaw
use halley.Normalizer.OpenLlmetry
use halley.Normalizer.OpenInference
use halley.Normalizer.VercelAi
use halley.Normalizer.OtelGenAi

pub data NormalizeError : Type 0 where
  unknown_dialect : NormalizeError
  failed : String → NormalizeError

-- `Result<CanonicalSpan, NormalizeError>`
pub data Normalized : Type 0 where
  ok : CanonicalSpan → Normalized
  err : NormalizeError → Normalized

-- The implementations of the trait `Adapter`.
pub data Adapter : Type 0 where
  halley_raw open_llmetry open_inference vercel_ai otel_gen_ai : Adapter

unfoldable pub dialect_id : Adapter → String
dialect_id halley_raw = "halley-raw"
dialect_id open_llmetry = "openllmetry"
dialect_id open_inference = "openinference"
dialect_id vercel_ai = "vercel-ai"
dialect_id otel_gen_ai = "otel-genai"

unfoldable pub detect : Adapter → OtlpSpan → Bool
unfolding HalleyRaw.detect OpenLlmetry.detect OpenInference.detect VercelAi.detect OtelGenAi.detect
detect halley_raw span = HalleyRaw.detect span
detect open_llmetry span = OpenLlmetry.detect span
detect open_inference span = OpenInference.detect span
detect vercel_ai span = VercelAi.detect span
detect otel_gen_ai span = OtelGenAi.detect span

unfoldable pub adapter_normalize : External → Adapter → OtlpSpan → Normalized
unfolding HalleyRaw.normalize OpenLlmetry.normalize OpenInference.normalize VercelAi.normalize
    OtelGenAi.normalize
adapter_normalize ext halley_raw span = ok (HalleyRaw.normalize ext span)
adapter_normalize ext open_llmetry span = ok (OpenLlmetry.normalize ext span)
adapter_normalize ext open_inference span = ok (OpenInference.normalize ext span)
adapter_normalize ext vercel_ai span = ok (VercelAi.normalize ext span)
adapter_normalize ext otel_gen_ai span = ok (OtelGenAi.normalize ext span)

-- `Normalizer::new`: the adapters in the order in which they are tried.
abbrev pub adapters : List Adapter
adapters = halley_raw ∷ open_llmetry ∷ open_inference ∷ vercel_ai ∷ otel_gen_ai ∷ []

unfoldable pub normalize_with : External → List Adapter → OtlpSpan → Normalized
unfolding detect adapter_normalize
normalize_with ext [] span = err unknown_dialect
normalize_with ext (a ∷ rest) span =
    if detect a span then adapter_normalize ext a span else normalize_with ext rest span

unfoldable pub normalize : External → OtlpSpan → Normalized
unfolding normalize_with
normalize ext span = normalize_with ext adapters span
