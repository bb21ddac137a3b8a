-- ===== src/Dataset/Memory/Succeeds.antt =====
-- A reader that has accepted a publisher's heads accepts the next one.
use pubky_swarm.Base.{
  ◌+◌, ◌≡◌, refl, sym, ◌∙◌, ap, true, Option, none, some, arith, Option-cases, inl, inr,
}
use pubky_swarm.Base.Bytes.{bytes_eq, bytes_eq_refl}
use pubky_swarm.Base.Result.{Result, ok}
use pubky_swarm.Protocol.Crates.{Crates}
use pubky_swarm.Protocol.Ids.{ManifestDigest}
use pubky_swarm.Dataset.Error.{Error}
use pubky_swarm.Dataset.Head.{
  DatasetHead, Provenance, check, check_against, from_highest, initial, advanced, Freshness,
  same_publisher, from_manifest,
}
use pubky_swarm.Dataset.Snapshot.{Snapshot, provenance}
use pubky_swarm.Dataset.Memory.{Publication, Committed, MemoryDataset, publish}
use pubky_swarm.Dataset.Memory.Publish.{Outcome, published, failed, publish-Outcome}
use pubky_swarm.Dataset.Memory.History.{IsConsistent}

provenance_publisher :
    (x : Crates) (s : Snapshot) → (provenance x s).publisher ≡ s.manifest.publisher
unfolding provenance from_manifest
provenance_publisher x s = refl

advances :
    (old new : DatasetHead)
    → old.provenance.publisher ≡ new.provenance.publisher
    → new.authority_sequence ≡ old.authority_sequence + 1
    → check_against old new ≡ ok advanced
unfolding check_against same_publisher
advances old new p s =
    let same : bytes_eq old.provenance.publisher.key new.provenance.publisher.key ≡ true =
      rw p (bytes_eq_refl new.provenance.publisher.key) in
    ground (arith, same)

-- What a tracker that follows the dataset answers to its next head.
abbrev pub next_freshness : Option Committed → Freshness
next_freshness none = initial
next_freshness (some _) = advanced

abbrev pub head_of : Option Committed → Option DatasetHead
head_of none = none
head_of (some c) = some c.head

outcome_accepted :
    (x : Crates) (d : MemoryDataset) (p : Publication) (expected : Option ManifestDigest)
    (r : MemoryDataset × Result Error Snapshot)
    → Outcome x d p expected r
    → IsConsistent x d
    → (s : Snapshot) (h : DatasetHead) → r.1 ≡ ok s
    → head_of r.0.state ≡ some h
    → check (from_highest (head_of d.state)) h ≡ ok (next_freshness d.state)
unfolding check
outcome_accepted x d p expected _ (failed e) i s h f g = cc
outcome_accepted x d p expected _ (published s' c b k) i s h f g =
    let new_is : c.head ≡ h = cc in
    elim (Option-cases d.state) [
      | inl e ↦ rw e refl
      | inr (old, e) ↦
          let sealed = i.holds old e in
          let owner : old.head.provenance.publisher ≡ c.head.provenance.publisher =
            ap (λ (q : Provenance). q.publisher) sealed.head_is
            ∙ provenance_publisher x old.snapshot
            ∙ sealed.owner
            ∙ sym b.owner
            ∙ sym (provenance_publisher x s')
            ∙ sym (ap (λ (q : Provenance). q.publisher) k.head_is) in
          rw (e, ← new_is) (advances old.head c.head owner (rw e at k.sequence_is))
    ]

-- A freshness tracker that holds the dataset's head accepts the head of a successful publication,
-- as an advance, or as the first head where there was none.
pub publish-accepted :
    (x : Crates) (d : MemoryDataset) (p : Publication) (expected : Option ManifestDigest)
    (s : Snapshot) (h : DatasetHead)
    → IsConsistent x d
    → (publish x d p expected).1 ≡ ok s
    → head_of (publish x d p expected).0.state ≡ some h
    → check (from_highest (head_of d.state)) h ≡ ok (next_freshness d.state)
publish-accepted x d p expected s h i =
    outcome_accepted x d p expected (publish x d p expected) (publish-Outcome x d p expected) i s h
