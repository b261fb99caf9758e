-- ===== src/Blob.antt =====
-- The crate dog-blob: uploads of blobs in parts, over a store of blobs.
pub mod Types
pub mod Parts
pub mod Sessions
pub mod Store
pub mod Staging
pub mod Coordinator
pub mod Keys
pub mod Adapter
pub mod Chunks
pub mod Examples
