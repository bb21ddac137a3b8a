-- ===== src/Lib.antt =====
-- Pubky Swarm publishes files as torrents and keeps authority over them in small signed objects.
-- This library models its Rust crates that decide what is accepted:
--
-- Protocol models crates/swarm-protocol/src/lib.rs. Crates is the record of what the crate calls of
-- others (hex, blake3, url, public keys), Error its `Error`, Portable the checks on texts, paths and
-- tags, Ids the identifiers with `to_hex` and `from_str`. Manifest is `DatasetManifestV1` (`new`,
-- `try_from_wire`, `validate`, `object`, `verify_object`), Manifest/Codec its `to_canonical_bytes`
-- and `from_canonical_bytes`. Release is `ReleaseV1` and `TorrentV1`, with `validate_tracker_url` of
-- crates/swarm-protocol/src/catalog.rs, and Import the observations and the public import of that
-- file, with the functions that map metadata to observations in Import/Sources. Subject has the
-- texts of torrent references, canonical URIs and subjects of that file, and Artifact its
-- `CanonicalWriter` and checks, with `TagClaimV1` in Artifact/Claim, `CollectionV1` in
-- Artifact/Collection, `TombstoneV1` in Artifact/Tombstone, `ModerationDecisionV1` in
-- Artifact/Moderation and `BlocklistV1` in Artifact/Blocklist.
--
-- Dataset models crates/dataset-core/src/lib.rs: Head has `DatasetHead` and `FreshnessTracker`,
-- ByteMap the map of a snapshot, Snapshot `Snapshot::new` and its readers, and Memory
-- `MemoryDataset` with its reader, publisher and watcher. The three handles share one state, which
-- each operation takes and returns. Commits hold the lock, one after another; `publish` sends the
-- head to the watch channel after it drops the lock, and the order in which overlapping calls send
-- theirs is not modelled: a call of `publish` runs alone. A manifest of Protocol is what a snapshot
-- holds and what a head names.
--
-- Head models crates/swarm-head/src/lib.rs: the BEP 46 value, the checks of `from_mutable_item`, and
-- the client's `resolve`, `publish_next` and `reannounce` over a record of the functions of the
-- `mainline` crate, with the state of the network passed along.
--
-- Gateway models crates/stream-gateway/src/lib.rs: `parse_range`, and in Handler `stream_file` over
-- a record of the engine's functions, and `hex_encode`.
--
-- Metainfo models crates/torrent-engine/src/validate.rs: components and file entries, and in
-- Validate the loops of `validate_metainfo`. A panic of the source is an error of its own.
--
-- Engine models the checks of crates/torrent-engine/src/engine.rs, and Engine/Adding its
-- `add_metainfo` and `add_magnet`. The librqbit session is a record of functions on a state of its
-- own. Kept says what of the metainfo reaches it.
--
-- CatalogClient models crates/catalog-client/src/lib.rs: the kinds of source and
-- `validate_source_url`, in Item `ItemBuilder` and `finish`, in Feed `parse_catalog` over the list
-- of events that the XML reader gives before the end of the document, and in Search
-- `torznab_search_url`.
--
-- Store models crates/swarm-store/src: the tables as lists of rows, with what the SQL does to them in
-- Table. Follows has the follows, cached releases and cursors of lib.rs, Catalog the cached artifacts
-- and Authority the sequences and subscriptions of catalog.rs, Sources the feeds of sources.rs with
-- their presets in Sources/Presets, Settings those of settings.rs, and Migrate `migrate` of lib.rs.
-- An operation takes the store and returns it; the lock makes an interleaving of calls a sequence.
--
-- Base has the shared parts: results, lists measured by native numbers, byte strings and the
-- functions of Rust's `str` and slices, UTF-8, `Path::components`, the stable sort, integers, and
-- relations between all pairs of a list. Tests has concrete inputs.
--
-- Text is its UTF-8 bytes, except that the strings of feeds, of a source's name and of the
-- settings' directory are lists of characters (Base/Text). A u64 or usize is a natural number,
-- with the bound of `checked_add` written out where the source tests it; an i64 is an integer.
-- Loops are structural recursion; the binary search of Manifest runs on fuel, one more than the
-- number of objects, which is enough since each round at least halves what is left. A lookup in
-- several equal elements is left open by the standard library; a valid manifest has none.
--
-- Not modelled: the sessions of the torrent engines, their creation of torrents and their streams,
-- the file of the store, the network clients, the services and the desktop application, which are
-- input and output or wrap other libraries; and the texts of errors that come from other crates.
pub mod Base
pub mod Protocol
pub mod Dataset
pub mod Head
pub mod Gateway
pub mod Metainfo
pub mod Engine
pub mod CatalogClient
pub mod Store
pub mod Tests
