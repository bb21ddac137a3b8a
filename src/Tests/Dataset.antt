-- ===== src/Tests/Dataset.antt =====
-- The theorems on datasets and their heads, at a dataset with one publication.
use pubky_swarm.Base.Bytes.{strip_prefix, to_be_bytes, upper_byte}
use pubky_swarm.Base.Paths.{first_piece, split}
use pubky_swarm.Base.Sort.{sort}
use pubky_swarm.Base.Utf8.{chars, decode_utf8, is_control}
use pubky_swarm.Dataset.Head.{from_manifest, new_head}
use pubky_swarm.Dataset.Memory.{
  actual_digest, announce, build, commit, declare, lock, next_sequence, same_expected,
}
use pubky_swarm.Dataset.Snapshot.{provenance, snapshot_digest}
use pubky_swarm.Protocol.Ids.{object_digest_of, object_digest_verify}
use pubky_swarm.Protocol.Manifest.{object_from_bytes, path_lt}
use pubky_swarm.Protocol.Manifest.Codec.{
  manifest_prefix, to_canonical_bytes, write_object, write_objects,
}
use pubky_swarm.Base.Bytes.{bytes_lt, contains, starts_with}
use pubky_swarm.Base.Paths.{components, is_absolute, join}
use pubky_swarm.Base.Utf8.{has_control}
use pubky_swarm.Dataset.ByteMap.{get, insert}
use pubky_swarm.Dataset.Snapshot.{check_keys, check_object, check_objects, collect}
use pubky_swarm.Protocol.Manifest.{follows, manifest_schema, object, objects_from, search_from}
use pubky_swarm.Protocol.Portable.{
  ends_with, is_unportable, is_windows_reserved_name, validate_portable_path,
}
use pubky_swarm.Base.Bytes.{bytes_eq}
use pubky_swarm.Dataset.Head.{same_publisher}
use pubky_swarm.Base.{
  ℕ, zero, suc, ◌≡◌, ◌↔◌, refl, ap, sym, true, Option, none, some, List, [], ◌∷◌, get_elem?,
}
use pubky_swarm.Base.Bytes.{codes}
use pubky_swarm.Base.Result.{ok, err}
use pubky_swarm.Protocol.Ids.{ManifestDigest}
use pubky_swarm.Protocol.Manifest.{ManifestObjectV1, DatasetManifestV1, validate}
use pubky_swarm.Protocol.Manifest.Lookup.{Declared}
use pubky_swarm.Protocol.Manifest.Verify.{Matches}
use pubky_swarm.Dataset.Error.{rollback}
use pubky_swarm.Dataset.Head.{DatasetHead, Freshness, from_highest, check_against, check, accept}
use pubky_swarm.Dataset.Freshness.{
  Succeeds, Verdict, check_against_iff, accept_all, HoldsAfter, accept_all-HoldsAfter,
}
use pubky_swarm.Dataset.Snapshot.{Snapshot, new_snapshot}
use pubky_swarm.Dataset.Snapshot.Sound.{IsAuthentic, new_snapshot-IsAuthentic}
use pubky_swarm.Dataset.Memory.{Committed, MemoryDataset, new_dataset, read_get, publish}
use pubky_swarm.Dataset.Memory.Publish.{Outcome, publish-Outcome, read_get-publish}
use pubky_swarm.Dataset.Memory.History.{
  IsConsistent, publish-IsConsistent, run, successes, sequence_of, run-new_dataset,
  read_get-authentic,
}
use pubky_swarm.Dataset.Memory.Succeeds.{publish-accepted, head_of, next_freshness}
use pubky_swarm.Tests.Hex.{crates}
use pubky_swarm.Tests.Sample.{publisher, publication, manifest, first_bytes}

abbrev digest_of_zeros : ManifestDigest
digest_of_zeros = record { bytes = [] }

abbrev head_at : ℕ → DatasetHead
head_at n = record {
  provenance = record { publisher = publisher; created_at = 5; manifest_digest = digest_of_zeros };
  authority_sequence = n;
}

accept_all-HoldsAfter_example :
    HoldsAfter
      (head_at 3)
      (accept_all (from_highest (some (head_at 3))) (head_at 2 ∷ head_at 4 ∷ []))
accept_all-HoldsAfter_example =
    accept_all-HoldsAfter (head_at 3) (from_highest (some (head_at 3))) (head_at 2 ∷ head_at 4 ∷ [])
      refl

check_against_iff_example :
    (((f : Freshness) × (check_against (head_at 3) (head_at 4) ≡ ok f))
      ↔ Succeeds (head_at 3) (head_at 4))
    × ((f : Freshness)
        → check_against (head_at 3) (head_at 4) ≡ ok f
        → Verdict (head_at 3) (head_at 4) f)
check_against_iff_example = check_against_iff (head_at 3) (head_at 4)

older_refused : (accept (from_highest (some (head_at 3))) (head_at 2)).1 ≡ err (rollback 3 2)
unfolding accept check check_against same_publisher bytes_eq
older_refused = refl

abbrev published : MemoryDataset
published = (publish crates (new_dataset publisher) publication none).0

publish-Outcome_example :
    Outcome crates
      (new_dataset publisher)
      publication
      none
      (publish crates (new_dataset publisher) publication none)
publish-Outcome_example = publish-Outcome crates (new_dataset publisher) publication none

run-new_dataset_example :
    (sequence_of (run crates (new_dataset publisher) ((publication, none) ∷ []))
      ≡ successes crates (new_dataset publisher) ((publication, none) ∷ []))
    × IsConsistent crates (run crates (new_dataset publisher) ((publication, none) ∷ []))
run-new_dataset_example = run-new_dataset crates publisher ((publication, none) ∷ [])

new-IsConsistent : IsConsistent crates (new_dataset publisher)
unfolding run
new-IsConsistent = (run-new_dataset crates publisher []).1

published-IsConsistent : IsConsistent crates published
published-IsConsistent =
    publish-IsConsistent crates (new_dataset publisher) publication none new-IsConsistent

abbrev snapshot : Snapshot
snapshot = record { manifest = manifest; objects = publication.objects }

manifest-validates : validate manifest ≡ ok tt
unfolding validate bytes_eq manifest_schema objects_from validate_portable_path is_absolute
    components join is_unportable contains has_control ends_with is_windows_reserved_name follows
    bytes_lt starts_with
manifest-validates = refl

snapshot_built : new_snapshot crates manifest publication.objects ≡ ok snapshot
unfolding new_snapshot collect get insert bytes_eq check_objects check_object bytes_lt check_keys
    object search_from
snapshot_built = refl

new_snapshot-IsAuthentic_example : (snapshot.manifest ≡ manifest) × IsAuthentic crates snapshot
new_snapshot-IsAuthentic_example =
    new_snapshot-IsAuthentic crates manifest publication.objects snapshot manifest-validates
      snapshot_built

published_ok : (publish crates (new_dataset publisher) publication none).1 ≡ ok snapshot
unfolding publish announce build pubky_swarm.Protocol.Manifest.new validate bytes_eq manifest_schema
    sort declare path_lt bytes_lt objects_from validate_portable_path is_absolute components join
    is_unportable contains has_control starts_with strip_prefix to_be_bytes upper_byte first_piece
    split pubky_swarm.Base.Sort.insert chars decode_utf8 is_control get insert from_manifest
    new_head actual_digest commit lock next_sequence same_expected check_keys check_object
    check_objects collect new_snapshot provenance snapshot_digest object_digest_of
    object_digest_verify pubky_swarm.Protocol.Manifest.Codec.digest manifest_prefix
    to_canonical_bytes write_object write_objects follows object object_from_bytes search_from
    ends_with is_windows_reserved_name
published_ok = refl

read_get-publish_example : read_get published (codes "a") ≡ ok (some first_bytes)
read_get-publish_example =
    read_get-publish crates (new_dataset publisher) publication none snapshot 0 (codes "a")
      first_bytes published_ok refl

read_get-authentic_example :
    (c : Committed) × (published.state ≡ some c)
    × ((o : ManifestObjectV1) × Declared c.snapshot.manifest o
        × (o.path ≡ codes "a")
        × Matches crates o first_bytes)
read_get-authentic_example =
    read_get-authentic crates published (codes "a") first_bytes published-IsConsistent (
      read_get-publish crates (new_dataset publisher) publication none snapshot 0 (codes "a")
        first_bytes published_ok refl)

abbrev published_head : DatasetHead
published_head = record { provenance = from_manifest crates manifest; authority_sequence = 1 }

head_published : head_of published.state ≡ some published_head
unfolding publish announce build pubky_swarm.Protocol.Manifest.new validate bytes_eq manifest_schema
    sort declare path_lt bytes_lt objects_from validate_portable_path is_absolute components join
    is_unportable contains has_control starts_with strip_prefix to_be_bytes upper_byte first_piece
    split pubky_swarm.Base.Sort.insert chars decode_utf8 is_control get insert from_manifest
    new_head actual_digest commit lock next_sequence same_expected check_keys check_object
    check_objects collect new_snapshot provenance snapshot_digest object_digest_of
    object_digest_verify pubky_swarm.Protocol.Manifest.Codec.digest manifest_prefix
    to_canonical_bytes write_object write_objects follows object object_from_bytes search_from
    ends_with is_windows_reserved_name
head_published = refl

publish-accepted_example : check (from_highest none) published_head ≡ ok (next_freshness none)
publish-accepted_example =
    publish-accepted crates (new_dataset publisher) publication none snapshot published_head
      new-IsConsistent published_ok head_published
