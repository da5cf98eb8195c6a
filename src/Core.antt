-- ===== src/Core.antt =====
-- crates/core: the rules for blobs.
pub mod BlobGas
mod Tests
