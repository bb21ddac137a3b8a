-- ===== src/Dataset/Head.antt =====
-- crates/dataset-core/src/lib.rs: `Provenance`, `DatasetHead`, `Freshness` and
-- `FreshnessTracker`.
use pubky_swarm.Base.{ℕ, Bool, not, Option, none, some, ltb, ◌==◌, if◌then◌else◌}
use pubky_swarm.Base.Bytes.{bytes_eq}
use pubky_swarm.Base.Result.{Result, ok, err}
use pubky_swarm.Protocol.Crates.{Crates}
use pubky_swarm.Protocol.Ids.{PublisherId, ManifestDigest}
use pubky_swarm.Protocol.Manifest.{DatasetManifestV1}
use pubky_swarm.Protocol.Manifest.Codec.{digest}
use pubky_swarm.Dataset.Error.{
  Error, invalid_sequence, rollback, conflicting_head, publisher_mismatch,
}

pub record Provenance : Type 0 where
  pub publisher : PublisherId
  pub created_at : ℕ
  pub manifest_digest : ManifestDigest

unfoldable pub from_manifest : Crates → DatasetManifestV1 → Provenance
from_manifest x m = record {
  publisher = m.publisher;
  created_at = m.created_at;
  manifest_digest = digest x m;
}

pub record DatasetHead : Type 0 where
  pub provenance : Provenance
  pub authority_sequence : ℕ

unfoldable pub new_head : Provenance → ℕ → Result Error DatasetHead
new_head provenance authority_sequence =
    if authority_sequence == 0
    then err (invalid_sequence 0)
    else ok (record { provenance = provenance; authority_sequence = authority_sequence })

pub data Freshness : Type 0 where
  initial unchanged advanced : Freshness

pub record FreshnessTracker : Type 0 where
  pub highest : Option DatasetHead

abbrev pub new_tracker : FreshnessTracker
new_tracker = record { highest = none }

abbrev pub from_highest : Option DatasetHead → FreshnessTracker
from_highest highest = record { highest = highest }

-- `==` of keys and of digests is that of their bytes.
unfoldable pub same_publisher : DatasetHead → DatasetHead → Bool
same_publisher a b = bytes_eq a.provenance.publisher.key b.provenance.publisher.key

unfoldable pub same_digest : DatasetHead → DatasetHead → Bool
same_digest a b = bytes_eq a.provenance.manifest_digest.bytes b.provenance.manifest_digest.bytes

-- `check`, behind its `let .. else`.
unfoldable pub check_against : DatasetHead → DatasetHead → Result Error Freshness
check_against highest head =
    if not (same_publisher highest head)
    then err (publisher_mismatch highest.provenance.publisher head.provenance.publisher)
    else if ltb highest.authority_sequence head.authority_sequence
    then ok advanced
    else if ltb head.authority_sequence highest.authority_sequence
    then err (rollback highest.authority_sequence head.authority_sequence)
    else if same_digest head highest
    then ok unchanged
    else err (conflicting_head head.authority_sequence)

unfoldable pub check : FreshnessTracker → DatasetHead → Result Error Freshness
check tracker head = elim tracker.highest [
  | none ↦ ok initial
  | some highest ↦ check_against highest head
]

-- The tracker after the call, and what the call returns.
unfoldable pub accept : FreshnessTracker → DatasetHead → FreshnessTracker × Result Error Freshness
accept tracker head = elim (check tracker head) [
  | err e ↦ (tracker, err e)
  | ok freshness ↦ (record { highest = some head }, ok freshness)
]
