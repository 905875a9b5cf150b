-- ===== src/Normalizer.antt =====
-- ingester/src/normalizer: the five dialects, and their dispatch in order of priority.
pub mod Attrs
pub mod Events
pub mod HalleyRaw
pub mod OpenLlmetry
pub mod OpenInference
pub mod VercelAi
pub mod OtelGenAi
pub mod Dispatch
