-- ===== src/Durable.antt =====
-- mrp/durable_buffer.go: the write-ahead log of the coordinator. A child module for each part.
pub mod Types
pub mod Codec
pub mod Names
pub mod Disk
pub mod Buffer
pub mod Write
pub mod Sync
pub mod Registry
pub mod Recovery
pub mod Retention
