-- ===== src/Pipeline.antt =====
-- ingester/src/pipeline: from a receiver to the Redis stream, and from the stream to ClickHouse.
pub mod Retry
pub mod Batch
pub mod Writer
