-- ===== src/Tests.antt =====
-- Concrete inputs: a small manifest, a dataset, heads, requests and metainfo, with simple functions
-- in place of the other crates, and the theorems applied to them.
pub mod Sample
pub mod Hex
pub mod Manifest
pub mod Dataset
pub mod Head
pub mod Gateway
pub mod Metainfo
pub mod Release
pub mod Import
pub mod Artifact
pub mod Store
pub mod Feed
pub mod Engine
