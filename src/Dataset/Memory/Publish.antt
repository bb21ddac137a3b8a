-- ===== src/Dataset/Memory/Publish.antt =====
-- What one call of `publish` does.
use pubky_swarm.Base.{
  ℕ, ◌+◌, ◌≤◌, ◌≡◌, true, false, inl, inr, Option, none, some, [], arith, get_elem?,
}
use pubky_swarm.Base.Bytes.{Bytes, u64_max}
use pubky_swarm.Base.Result.{Result, ok, err, map_err, >>=-eq-ok, guard-eq-ok, Result-cases}
use pubky_swarm.Protocol.Crates.{Crates}
use pubky_swarm.Protocol.Error as Wire
use pubky_swarm.Protocol.Ids.{PublisherId, ManifestDigest}
use pubky_swarm.Protocol.Manifest.{DatasetManifestV1, validate, new}
use pubky_swarm.Protocol.Manifest.Order.{new-eq-ok}
use pubky_swarm.Dataset.Error.{Error, protocol}
use pubky_swarm.Dataset.Head.{DatasetHead, new_head}
use pubky_swarm.Dataset.Snapshot.{Snapshot, provenance, collect}
use pubky_swarm.Dataset.Snapshot.Sound.{
  IsAuthentic, new_snapshot-IsAuthentic, new_snapshot-eq-ok, collect-get,
}
use pubky_swarm.Dataset.Memory.{
  Publication, Committed, MemoryDataset, lock, same_expected, declare, build, actual_digest,
  next_sequence, commit, announce, publish, read_get,
}

-- The sequence after a successful publication.
abbrev pub following : Option Committed → ℕ
following none = 1
following (some c) = c.head.authority_sequence + 1

-- What a commit has checked and written.
pub record Commits (x : Crates) (d : MemoryDataset) (s : Snapshot)
    (expected : Option ManifestDigest) (c : Committed) : Type 0 where
  pub usable : d.poisoned ≡ false
  pub expected_is : same_expected (actual_digest x d.state) expected ≡ true
  pub head_is : c.head.provenance ≡ provenance x s
  pub sequence_is : c.head.authority_sequence ≡ following d.state
  pub in_range : c.head.authority_sequence ≤ u64_max
  pub snapshot_is : c.snapshot ≡ s

next_sequence-eq-ok :
    (x : Crates) (state : Option Committed) (n : ℕ)
    → next_sequence x state ≡ ok n
    → (n ≡ following state) × (n ≤ u64_max)
unfolding next_sequence
next_sequence-eq-ok x none n e = ground arith
next_sequence-eq-ok x (some c) n e = ground arith

new_head-eq-ok :
    (x : Crates) (s : Snapshot) (n : ℕ) (h : DatasetHead)
    → new_head (provenance x s) n ≡ ok h
    → (h.provenance ≡ provenance x s) × (h.authority_sequence ≡ n)
unfolding new_head
new_head-eq-ok x s n h e = ground arith

lock-eq-ok :
    (d : MemoryDataset) (state : Option Committed)
    → lock d ≡ ok state
    → (d.poisoned ≡ false) × (d.state ≡ state)
unfolding lock
lock-eq-ok d state e = ground arith

commit-Commits :
    (x : Crates) (d : MemoryDataset) (s : Snapshot) (expected : Option ManifestDigest)
    (c : Committed)
    → commit x d s expected ≡ ok c
    → Commits x d s expected c
unfolding commit
commit-Commits x d s expected c e =
    let (state, e₁, k₁) = >>=-eq-ok (lock d) _ e in
    let (usable, state_is) = lock-eq-ok d state e₁ in
    let (cas, k₂) = guard-eq-ok (same_expected (actual_digest x state) expected) _ _ k₁ in
    let (n, e₃, k₃) = >>=-eq-ok (next_sequence x state) _ k₂ in
    let (n_is, n_max) = next_sequence-eq-ok x state n e₃ in
    let (h, e₄, k₄) = >>=-eq-ok (new_head (provenance x s) n) _ k₃ in
    let (prov, seq) = new_head-eq-ok x s n h e₄ in
    let head_eq : h ≡ c.head = ground arith in
    record {
      usable = usable;
      expected_is = rw state_is cas;
      head_is = rw (← head_eq) prov;
      sequence_is = rw (← head_eq, state_is, ← n_is) seq;
      in_range = rw (← head_eq, seq) n_max;
      snapshot_is = ground arith;
    }

-- What the staging has built.
pub record Builds (x : Crates) (identity : PublisherId) (p : Publication) (s : Snapshot)
    : Type 0 where
  pub valid : validate s.manifest ≡ ok tt
  pub owner : s.manifest.publisher ≡ identity
  pub created : s.manifest.created_at ≡ p.created_at
  pub authentic : IsAuthentic x s
  pub collected : collect [] p.objects ≡ ok s.objects

map_err-eq-ok :
    (r : Result Wire.Error DatasetManifestV1) (m : DatasetManifestV1)
    → map_err protocol r ≡ ok m
    → r ≡ ok m
map_err-eq-ok (ok a) m e = ground arith
map_err-eq-ok (err a) m e = cc

build-Builds :
    (x : Crates) (identity : PublisherId) (p : Publication) (s : Snapshot)
    → build x identity p ≡ ok s
    → Builds x identity p s
unfolding build
build-Builds x identity p s e =
    let (m, e₁, k₁) =
      >>=-eq-ok (map_err protocol (new identity p.created_at (declare x p.objects))) _ e in
    let (valid, owner, created, _) =
      new-eq-ok identity p.created_at (declare x p.objects) m (map_err-eq-ok _ m e₁) in
    let (same, authentic) = new_snapshot-IsAuthentic x m p.objects s valid k₁ in
    record {
      valid = rw same valid;
      owner = rw same owner;
      created = rw same created;
      authentic = authentic;
      collected = (new_snapshot-eq-ok x m p.objects s k₁).collected;
    }

-- The dataset after a commit.
abbrev pub committed : MemoryDataset → Committed → MemoryDataset
committed d c = record d { state = some c; changes = some c.head }

pub data Outcome (x : Crates) (d : MemoryDataset) (p : Publication)
    (expected : Option ManifestDigest) : MemoryDataset × Result Error Snapshot → Type 0 where
  published :
      (s : Snapshot) (c : Committed)
      → Builds x d.identity p s
      → Commits x d s expected c
      → Outcome x d p expected (committed d c, ok s)
  failed : (e : Error) → Outcome x d p expected (d, err e)

-- A call of `publish` either commits the snapshot that it built, with the following sequence and
-- only over the state that the caller expected, or fails and leaves the whole dataset as it was.
pub publish-Outcome :
    (x : Crates) (d : MemoryDataset) (p : Publication) (expected : Option ManifestDigest)
    → Outcome x d p expected (publish x d p expected)
unfolding publish announce
publish-Outcome x d p expected = elim (Result-cases (build x d.identity p)) [
  | inr (e, h) ↦ rw (h, publish) (failed e)
  | inl (s, h) ↦ elim (Result-cases (commit x d s expected)) [
    | inr (e, k) ↦ rw (h, publish, k) (failed e)
    | inl (c, k) ↦
        rw (h, publish, k)
          (published s c (build-Builds x d.identity p s h) (commit-Commits x d s expected c k))
  ]
]

outcome_read :
    (x : Crates) (d : MemoryDataset) (p : Publication) (expected : Option ManifestDigest)
    (r : MemoryDataset × Result Error Snapshot)
    → Outcome x d p expected r
    → (s : Snapshot) → r.1 ≡ ok s
    → (i : ℕ) (path bytes : Bytes) → get_elem? p.objects i ≡ some (path, bytes)
    → read_get r.0 path ≡ ok (some bytes)
unfolding read_get
outcome_read x d p expected _ (failed e) s h i path bytes f = cc
outcome_read x d p expected _ (published s' c b k) s h i path bytes f =
    let found = collect-get [] p.objects s'.objects i path bytes b.collected f in
    rw (k.usable, k.snapshot_is) (rw found)

-- After a successful publication every published path reads back the bytes that were given for it.
pub read_get-publish :
    (x : Crates) (d : MemoryDataset) (p : Publication) (expected : Option ManifestDigest)
    (s : Snapshot) (i : ℕ) (path bytes : Bytes)
    → (publish x d p expected).1 ≡ ok s
    → get_elem? p.objects i ≡ some (path, bytes)
    → read_get (publish x d p expected).0 path ≡ ok (some bytes)
read_get-publish x d p expected s i path bytes h f =
    outcome_read x d p expected (publish x d p expected) (publish-Outcome x d p expected) s h i path
      bytes f
