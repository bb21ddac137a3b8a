-- ===== src/Protocol.antt =====
-- crates/swarm-protocol.
pub mod Error
pub mod Crates
pub mod Portable
pub mod Ids
pub mod Manifest
pub mod Release
pub mod Import
pub mod Subject
pub mod Artifact
