-- ===== src/Pipeline.antt =====
-- The streaming pipeline: crates/tekflash-core/src/pipeline.
pub mod Format
pub mod Compress
pub mod Crypto
pub mod Hasher
pub mod Reader
pub mod Verify
pub mod Writer
pub mod Copy
pub mod Buffer
pub mod Pumps
