-- ===== src/Dataset/Memory/History.antt =====
-- What holds after any run of publications.
use pubky_swarm.Base.{
  ℕ, ◌+◌, ◌≤◌, ◌<◌, ◌≡◌, refl, ◌∙◌, ap, Option, none, some, List, [], ◌∷◌, arith, Option-cases, inl,
  inr,
}
use pubky_swarm.Base.Bytes.{Bytes, u64_max}
use pubky_swarm.Base.Result.{Result, ok, err}
use pubky_swarm.Protocol.Crates.{Crates}
use pubky_swarm.Protocol.Ids.{PublisherId, ManifestDigest}
use pubky_swarm.Protocol.Manifest.{ManifestObjectV1, validate}
use pubky_swarm.Protocol.Manifest.Lookup.{Declared}
use pubky_swarm.Protocol.Manifest.Verify.{Matches}
use pubky_swarm.Dataset.Error.{Error}
use pubky_swarm.Dataset.Snapshot.{Snapshot, provenance}
use pubky_swarm.Dataset.Snapshot.Sound.{IsAuthentic}
use pubky_swarm.Dataset.Memory.{
  Publication, Committed, MemoryDataset, new_dataset, publish, read_get,
}
use pubky_swarm.Dataset.Memory.Publish.{
  Outcome, published, failed, Builds, Commits, following, publish-Outcome,
}

-- A committed state is its publisher's, authentic, and described by its head.
pub record IsSealed (x : Crates) (identity : PublisherId) (c : Committed) : Type 0 where
  pub valid : validate c.snapshot.manifest ≡ ok tt
  pub owner : c.snapshot.manifest.publisher ≡ identity
  pub authentic : IsAuthentic x c.snapshot
  pub head_is : c.head.provenance ≡ provenance x c.snapshot
  pub positive : 0 < c.head.authority_sequence
  pub in_range : c.head.authority_sequence ≤ u64_max

-- The invariant of the dataset.
pub record IsConsistent (x : Crates) (d : MemoryDataset) : Type 0 where
  pub holds : (c : Committed) → d.state ≡ some c → IsSealed x d.identity c
  pub announced : (c : Committed) → d.state ≡ some c → d.changes ≡ some c.head

new_dataset-IsConsistent :
    (x : Crates) (identity : PublisherId) → IsConsistent x (new_dataset identity)
new_dataset-IsConsistent x identity = record { holds = λ c e. cc; announced = λ c e. cc }

positive_following : (state : Option Committed) → 0 < following state
positive_following none = omega arith
positive_following (some c) = omega arith

seal :
    (x : Crates) (d : MemoryDataset) (p : Publication) (expected : Option ManifestDigest)
    (s : Snapshot) (c : Committed)
    → Builds x d.identity p s
    → Commits x d s expected c
    → IsSealed x d.identity c
seal x d p expected s c b k =
    let same = k.snapshot_is in
    record {
      valid = rw same b.valid;
      owner = rw same b.owner;
      authentic = rw same b.authentic;
      head_is = rw same k.head_is;
      positive = rw k.sequence_is (positive_following d.state);
      in_range = k.in_range;
    }

outcome-IsConsistent :
    (x : Crates) (d : MemoryDataset) (p : Publication) (expected : Option ManifestDigest)
    (r : MemoryDataset × Result Error Snapshot)
    → Outcome x d p expected r
    → IsConsistent x d
    → IsConsistent x r.0
outcome-IsConsistent x d p expected _ (failed e) h = h
outcome-IsConsistent x d p expected _ (published s c b k) h = record {
  holds = λ c' e. let same : c ≡ c' = cc in rw (← same) (seal x d p expected s c b k);
  announced = λ c' e. let same : c ≡ c' = cc in ap (λ (a : Committed). some a.head) same;
}

pub publish-IsConsistent :
    (x : Crates) (d : MemoryDataset) (p : Publication) (expected : Option ManifestDigest)
    → IsConsistent x d
    → IsConsistent x (publish x d p expected).0
publish-IsConsistent x d p expected =
    outcome-IsConsistent x d p expected (publish x d p expected) (publish-Outcome x d p expected)

-- A run of calls, from any number of publishers' handles, and how many of them succeeded.
abbrev pub Call : Type 0
Call = Publication × Option ManifestDigest

unfoldable pub run : Crates → MemoryDataset → List Call → MemoryDataset
run x d [] = d
run x d ((p, expected) ∷ calls) = run x (publish x d p expected).0 calls

abbrev pub count_ok : Result Error Snapshot → ℕ
count_ok (ok _) = 1
count_ok (err _) = 0

unfoldable pub successes : Crates → MemoryDataset → List Call → ℕ
successes x d [] = 0
successes x d ((p, expected) ∷ calls) =
    count_ok (publish x d p expected).1 + successes x (publish x d p expected).0 calls

abbrev pub sequence_of : MemoryDataset → ℕ
sequence_of d = elim d.state [ none ↦ 0 | some c ↦ c.head.authority_sequence ]

run-IsConsistent :
    (x : Crates) (d : MemoryDataset) (calls : List Call)
    → IsConsistent x d
    → IsConsistent x (run x d calls)
unfolding run
run-IsConsistent x d [] h = h
run-IsConsistent x d ((p, expected) ∷ calls) h =
    run-IsConsistent x (publish x d p expected).0 calls (publish-IsConsistent x d p expected h)

following-sequence : (d : MemoryDataset) → following d.state ≡ sequence_of d + 1
following-sequence d = elim (Option-cases d.state) [
  | inl e ↦ rw e (omega arith)
  | inr (c, e) ↦ rw e refl
]

outcome_counts :
    (x : Crates) (d : MemoryDataset) (p : Publication) (expected : Option ManifestDigest)
    (r : MemoryDataset × Result Error Snapshot)
    → Outcome x d p expected r
    → sequence_of r.0 ≡ sequence_of d + count_ok r.1
outcome_counts x d p expected _ (failed e) = omega arith
outcome_counts x d p expected _ (published s c b k) = k.sequence_is ∙ following-sequence d

run_counts :
    (x : Crates) (d : MemoryDataset) (calls : List Call)
    → sequence_of (run x d calls) ≡ sequence_of d + successes x d calls
unfolding run successes
run_counts x d [] = omega arith
run_counts x d ((p, expected) ∷ calls) = omega (
  arith,
  run_counts x (publish x d p expected).0 calls,
  outcome_counts x d p expected (publish x d p expected) (publish-Outcome x d p expected),
)

-- After any calls of `publish` on a new dataset, one after another, the authority sequence is the
-- number of calls that succeeded, the state is sealed: valid, of the identity, authentic, and
-- described by its head, and the watch channel holds that head.
pub run-new_dataset :
    (x : Crates) (identity : PublisherId) (calls : List Call)
    → (sequence_of (run x (new_dataset identity) calls) ≡ successes x (new_dataset identity) calls)
      × IsConsistent x (run x (new_dataset identity) calls)
run-new_dataset x identity calls = (
  run_counts x (new_dataset identity) calls ∙ omega arith,
  run-IsConsistent x (new_dataset identity) calls (new_dataset-IsConsistent x identity),
)

-- Whatever `get` returns from a consistent dataset is the content of an object of the manifest
-- that the head names, at the path that was asked for, with the declared size and digest.
pub read_get-authentic :
    (x : Crates) (d : MemoryDataset) (path bytes : Bytes)
    → IsConsistent x d
    → read_get d path ≡ ok (some bytes)
    → (c : Committed) × (d.state ≡ some c)
      × ((o : ManifestObjectV1) × Declared c.snapshot.manifest o
          × (o.path ≡ path)
          × Matches x o bytes)
unfolding read_get
read_get-authentic x d path bytes h e = elim (Option-cases d.state) [
  | inl n ↦ ground arith
  | inr (c, s) ↦ (c, s, (h.holds c s).authentic.only_listed path bytes (ground arith))
]
