-- ===== src/Domain.antt =====
-- The data of the ingester: ingester/src/domain and ingester/src/errors.rs.
pub mod Errors
pub mod OtlpSpan
pub mod Rows
pub mod Span
pub mod CanonicalSpan
