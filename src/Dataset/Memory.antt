-- ===== src/Dataset/Memory.antt =====
-- crates/dataset-core/src/lib.rs: `Publication`, `MemoryDataset` and its three handles. The
-- handles share one state, which every operation takes and returns. Commits run under the lock, one
-- after another; the head is sent to the watch channel after the lock is dropped, so that overlapping
-- calls may send theirs in another order, which is not modelled: `publish` runs alone.
pub mod Publish
pub mod History
pub mod Succeeds
use pubky_swarm.Base.{
  ℕ, ◌+◌, ◌≡◌, Bool, true, false, not, ◌&&◌, Option, none, some, List, [], ◌∷◌, ◌++◌, ltb, ◌==◌,
  if◌then◌else◌,
}
use pubky_swarm.Base.Bytes.{Bytes, bytes_eq, u64_max}
use pubky_swarm.Base.Result.{Result, ok, err, ◌>>=◌, ◌>>◌, guard, map_err}
use pubky_swarm.Protocol.Crates.{Crates}
use pubky_swarm.Protocol.Ids.{PublisherId, ManifestDigest}
use pubky_swarm.Protocol.Manifest.{ManifestObjectV1, object_from_bytes, new}
use pubky_swarm.Dataset.Error.{
  Error, protocol, sequence_exhausted, concurrent_update, watch_closed, lock_poisoned,
}
use pubky_swarm.Dataset.Head.{DatasetHead, new_head, same_digest}
use pubky_swarm.Dataset.Snapshot.{
  Snapshot, new_snapshot, snapshot_digest, provenance, snapshot_get, snapshot_list,
}

pub record Publication : Type 0 where
  pub created_at : ℕ
  pub objects : List (Bytes × Bytes)

-- `Publication::insert`.
unfoldable pub stage : Publication → Bytes → Bytes → Publication
stage p path bytes = record p { objects = p.objects ++ ((path, bytes) ∷ []) }

pub record Committed : Type 0 where
  pub head : DatasetHead
  pub snapshot : Snapshot

-- The lock's value and whether it is poisoned, and the value of the watch channel.
pub record MemoryDataset : Type 0 where
  pub identity : PublisherId
  pub state : Option Committed
  pub poisoned : Bool
  pub changes : Option DatasetHead

abbrev pub new_dataset : PublisherId → MemoryDataset
new_dataset identity = record {
  identity = identity;
  state = none;
  poisoned = false;
  changes = none;
}

-- `self.state.lock()`.
unfoldable pub lock : MemoryDataset → Result Error (Option Committed)
lock d = if d.poisoned then err lock_poisoned else ok d.state

-- `MemoryReader`.
unfoldable pub read_snapshot : MemoryDataset → Result Error (Option Snapshot)
unfolding lock
read_snapshot d = do state ← lock d; ok (elim state [ none ↦ none | some c ↦ some c.snapshot ])

unfoldable pub read_head : MemoryDataset → Result Error (Option DatasetHead)
unfolding lock
read_head d = do state ← lock d; ok (elim state [ none ↦ none | some c ↦ some c.head ])

unfoldable pub read_get : MemoryDataset → Bytes → Result Error (Option Bytes)
unfolding lock snapshot_get
read_get d path = do
  state ← lock d
  ok (elim state [ none ↦ none | some c ↦ snapshot_get c.snapshot path ])

unfoldable pub read_list : MemoryDataset → Bytes → Result Error (List ManifestObjectV1)
unfolding lock snapshot_list
read_list d prefix = do
  state ← lock d
  ok (elim state [ none ↦ [] | some c ↦ snapshot_list c.snapshot prefix ])

-- `==` of `Option<ManifestDigest>`.
unfoldable pub same_expected : Option ManifestDigest → Option ManifestDigest → Bool
same_expected none none = true
same_expected (some a) (some b) = bytes_eq a.bytes b.bytes
same_expected _ _ = false

module _ (x : Crates) where
  unfoldable pub declare : List (Bytes × Bytes) → List ManifestObjectV1
  unfolding object_from_bytes
  declare [] = []
  declare ((path, bytes) ∷ objects) = object_from_bytes x path bytes ∷ declare objects

  -- What `publish` does before it takes the lock.
  unfoldable pub build : PublisherId → Publication → Result Error Snapshot
  build identity publication = do
    manifest ← map_err protocol (new identity publication.created_at (declare publication.objects))
    new_snapshot x manifest publication.objects

  unfoldable pub actual_digest : Option Committed → Option ManifestDigest
  unfolding snapshot_digest
  actual_digest none = none
  actual_digest (some c) = some (snapshot_digest x c.snapshot)

  unfoldable pub next_sequence : Option Committed → Result Error ℕ
  next_sequence none = ok 1
  next_sequence (some c) =
      if ltb c.head.authority_sequence u64_max
      then ok (c.head.authority_sequence + 1)
      else err sequence_exhausted

  -- The commit under the lock: the new value of the lock.
  unfoldable pub commit : MemoryDataset → Snapshot → Option ManifestDigest → Result Error Committed
  unfolding lock
  commit d snapshot expected_previous = do
    state ← lock d
    guard (same_expected (actual_digest state) expected_previous)
        (concurrent_update expected_previous (actual_digest state))
    sequence ← next_sequence state
    head ← new_head (provenance x snapshot) sequence
    ok (record { head = head; snapshot = snapshot })

  -- `send_replace` on the watch channel, after the lock is dropped.
  unfoldable pub announce : MemoryDataset → DatasetHead → MemoryDataset
  announce d head = record d { changes = some head }

  -- `publish`: the dataset after a call that no other one overlaps, and what the call returns.
  unfoldable pub publish :
      MemoryDataset → Publication → Option ManifestDigest → MemoryDataset × Result Error Snapshot
  publish d publication expected_previous = elim (build d.identity publication) [
    | err e ↦ (d, err e)
    | ok snapshot ↦ elim (commit d snapshot expected_previous) [
      | err e ↦ (d, err e)
      | ok committed ↦ (announce (record d { state = some committed }) committed.head, ok snapshot)
    ]
  ]

-- The `match` of `wait_for_change`.
unfoldable pub up_to_date : Option DatasetHead → Option DatasetHead → Bool
unfolding same_digest
up_to_date none none = true
up_to_date (some current) (some since) =
    current.authority_sequence == since.authority_sequence && same_digest current since
up_to_date _ _ = false

-- `wait_for_change` on the value at the call and the values that come later, of which a watch
-- channel may skip some; the sender is dropped at the end.
unfoldable pub wait_for_change :
    Option DatasetHead → List (Option DatasetHead) → Option DatasetHead → Result Error DatasetHead
wait_for_change none [] since = err watch_closed
wait_for_change none (next ∷ later) since = wait_for_change next later since
wait_for_change (some head) [] since =
    if up_to_date (some head) since then err watch_closed else ok head
wait_for_change (some head) (next ∷ later) since =
    let rest = wait_for_change next later since in
    if up_to_date (some head) since then rest else ok head
