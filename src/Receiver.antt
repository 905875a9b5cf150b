-- ===== src/Receiver.antt =====
-- The receivers of spans: authentication, the translation of protobuf, and the handlers.
pub mod Auth
pub mod Gate
pub mod Proto
pub mod Ingest
pub mod Handlers
