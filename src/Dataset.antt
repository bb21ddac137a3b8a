-- ===== src/Dataset.antt =====
-- crates/dataset-core.
pub mod Error
pub mod Head
pub mod Freshness
pub mod ByteMap
pub mod Snapshot
pub mod Memory
