-- ===== src/Protocol/Artifact/Accepted.antt =====
-- What the constructors and `Deserialize` of the five kinds of artifact accept.
use Prim.Native.String.{String}
use pubky_swarm.Base.{ℕ, ◌≡◌, ◌↔◌, refl, true, List, arith}
use pubky_swarm.Base.Bytes.{Bytes, bytes_eq_iff, bytes_eq_refl}
use pubky_swarm.Base.Result.{Result, ok, err, ◌>>◌, guard, map_err}
use pubky_swarm.Protocol.Crates.{Crates}
use pubky_swarm.Protocol.Error.{Error, custom, custom_of}
use pubky_swarm.Protocol.Ids.{PublisherId}
use pubky_swarm.Protocol.Subject.{SubjectRef, SourceAttribution}
use pubky_swarm.Protocol.Artifact.{ArtifactId, derive, same_id}
use pubky_swarm.Protocol.Artifact.Claim.{TagClaimV1, TagOperation}
use pubky_swarm.Protocol.Artifact.Collection.{CollectionV1}
use pubky_swarm.Protocol.Artifact.Tombstone.{TombstoneV1}
use pubky_swarm.Protocol.Artifact.Moderation.{ModerationDecisionV1, ModerationAction}
use pubky_swarm.Protocol.Artifact.Blocklist.{BlocklistV1}
use pubky_swarm.Protocol.Artifact.Valid.{
  IsTagClaim, IsCollection, IsTombstone, IsDecision, IsBlocklist, validate-IsTagClaim_iff,
  validate-IsCollection_iff, validate-IsTombstone_iff, validate-IsDecision_iff,
  validate-IsBlocklist_iff,
}
use pubky_swarm.Protocol.Artifact.Claim
use pubky_swarm.Protocol.Artifact.Collection
use pubky_swarm.Protocol.Artifact.Tombstone
use pubky_swarm.Protocol.Artifact.Moderation
use pubky_swarm.Protocol.Artifact.Blocklist

-- An artifact of any kind.
pub data Artifact : Type 0 where
  tag_claim : TagClaimV1 → Artifact
  subject_collection : CollectionV1 → Artifact
  subject_tombstone : TombstoneV1 → Artifact
  moderation_decision : ModerationDecisionV1 → Artifact
  subject_blocklist : BlocklistV1 → Artifact

-- What one of the five `new` is called with.
pub data Draft : Type 0 where
  claim_draft : PublisherId → SubjectRef → Bytes → TagOperation → ℕ → ℕ → SourceAttribution → Draft
  collection_draft :
      PublisherId → Bytes → Bytes → List SubjectRef → ℕ → ℕ → SourceAttribution → Draft
  tombstone_draft : PublisherId → SubjectRef → Bytes → ℕ → ℕ → SourceAttribution → Draft
  decision_draft :
      PublisherId → SubjectRef → ModerationAction → Bytes → ℕ → ℕ → SourceAttribution → Draft
  blocklist_draft : PublisherId → Bytes → List SubjectRef → ℕ → ℕ → SourceAttribution → Draft

accept : Artifact → Result Error Artifact
accept = ok

-- `accept` after a result of one kind.
into {ℓ} : {A : Type ℓ} → (A → Artifact) → Result Error A → Result Error Artifact
unfolding accept
into kind (ok a) = accept (kind a)
into kind (err e) = err e

unfoldable pub artifact_id : Artifact → ArtifactId
artifact_id (tag_claim a) = a.id
artifact_id (subject_collection a) = a.id
artifact_id (subject_tombstone a) = a.id
artifact_id (moderation_decision a) = a.id
artifact_id (subject_blocklist a) = a.id

unfoldable pub validate : Artifact → Result Error (Unit {0})
validate (tag_claim a) = Claim.validate a
validate (subject_collection a) = Collection.validate a
validate (subject_tombstone a) = Tombstone.validate a
validate (moderation_decision a) = Moderation.validate a
validate (subject_blocklist a) = Blocklist.validate a

module _ (x : Crates) where
  unfoldable pub canonical_bytes : Artifact → Bytes
  canonical_bytes (tag_claim a) = Claim.to_canonical_bytes x a
  canonical_bytes (subject_collection a) = Collection.to_canonical_bytes x a
  canonical_bytes (subject_tombstone a) = Tombstone.to_canonical_bytes x a
  canonical_bytes (moderation_decision a) = Moderation.to_canonical_bytes x a
  canonical_bytes (subject_blocklist a) = Blocklist.to_canonical_bytes x a

  unfoldable pub new : Draft → Result Error Artifact
  unfolding into
  new (claim_draft i s t o c r f) = into tag_claim (Claim.new x i s t o c r f)
  new (collection_draft i t d s c r f) = into subject_collection (Collection.new x i t d s c r f)
  new (tombstone_draft i s t c r f) = into subject_tombstone (Tombstone.new x i s t c r f)
  new (decision_draft i s a t c r f) = into moderation_decision (Moderation.new x i s a t c r f)
  new (blocklist_draft i t s c r f) = into subject_blocklist (Blocklist.new x i t s c r f)

  unfoldable pub deserialize : Artifact → Result Error Artifact
  unfolding into
  deserialize (tag_claim a) = into tag_claim (Claim.deserialize x a)
  deserialize (subject_collection a) = into subject_collection (Collection.deserialize x a)
  deserialize (subject_tombstone a) = into subject_tombstone (Tombstone.deserialize x a)
  deserialize (moderation_decision a) = into moderation_decision (Moderation.deserialize x a)
  deserialize (subject_blocklist a) = into subject_blocklist (Blocklist.deserialize x a)

unfoldable pub IsArtifact : Artifact → Type 0
IsArtifact (tag_claim a) = IsTagClaim a
IsArtifact (subject_collection a) = IsCollection a
IsArtifact (subject_tombstone a) = IsTombstone a
IsArtifact (moderation_decision a) = IsDecision a
IsArtifact (subject_blocklist a) = IsBlocklist a

validate_iff : (a : Artifact) → (validate a ≡ ok tt) ↔ IsArtifact a
unfolding validate IsArtifact
validate_iff (tag_claim a) = validate-IsTagClaim_iff a
validate_iff (subject_collection a) = validate-IsCollection_iff a
validate_iff (subject_tombstone a) = validate-IsTombstone_iff a
validate_iff (moderation_decision a) = validate-IsDecision_iff a
validate_iff (subject_blocklist a) = validate-IsBlocklist_iff a

same_id_iff : (a b : ArtifactId) → (same_id a b ≡ true) ↔ (a ≡ b)
unfolding same_id
same_id_iff a b = (λ h. cc ((bytes_eq_iff a.bytes b.bytes).0 h), λ h. rw h (bytes_eq_refl b.bytes))

accept_eq : (a b : Artifact) → accept a ≡ ok b → a ≡ b
unfolding accept
accept_eq a b e = ground arith

-- The form that the five `Deserialize` and the five `new` share.
module _ {A : Type 0} (check : A → Result Error (Unit {0})) (kind : A → Artifact)
    (derived : A → ArtifactId) (id : A → ArtifactId) (message : String) where
  read : A → Result Error A
  read wire = do
    map_err custom_of (check wire)
    guard (same_id (id wire) (derived wire)) (custom message)
    ok wire

  read_iff :
      (w : A) (a : Artifact)
      → (into kind (read w) ≡ ok a) ↔ ((kind w ≡ a) × (check w ≡ ok tt) × (id w ≡ derived w))
  unfolding read into accept
  read_iff w a = ground (arith, same_id_iff (id w) (derived w))

  -- An artifact that `new` completes with its id is read again.
  read_new :
      (checked : Result Error (Unit {0})) (signed : A) (a : Artifact)
      (receive : Artifact → Result Error Artifact)
      → check signed ≡ checked
      → id signed ≡ derived signed
      → receive (kind signed) ≡ into kind (read signed)
      → into kind (checked >> ok signed) ≡ ok a
      → receive a ≡ ok a
  unfolding read into accept
  read_new (ok tt) signed a receive same derives reads e =
      let is_a : kind signed ≡ a = accept_eq _ _ e in
      let again : into kind (read signed) ≡ ok (kind signed) =
        (read_iff signed (kind signed)).1 (refl, same, derives) in
      rw (← is_a) (cc (reads, again))
  read_new (err problem) signed a receive same derives reads e = cc

module _ (x : Crates) where
  pub deserialize_parts :
      (w a : Artifact)
      → (deserialize x w ≡ ok a)
        ↔ ((w ≡ a) × (validate w ≡ ok tt) × (artifact_id w ≡ derive x (canonical_bytes x w)))
  unfolding deserialize validate artifact_id canonical_bytes read Claim.deserialize
      Collection.deserialize Tombstone.deserialize Moderation.deserialize Blocklist.deserialize
  deserialize_parts (tag_claim w) a =
      read_iff Claim.validate tag_claim (λ c. derive x (Claim.to_canonical_bytes x c)) TagClaimV1.id
        "tag claim id does not match content" w a
  deserialize_parts (subject_collection w) a =
      read_iff Collection.validate subject_collection
        (λ c. derive x (Collection.to_canonical_bytes x c)) CollectionV1.id
        "collection id does not match content" w a
  deserialize_parts (subject_tombstone w) a =
      read_iff Tombstone.validate subject_tombstone
        (λ c. derive x (Tombstone.to_canonical_bytes x c)) TombstoneV1.id
        "tombstone id does not match content" w a
  deserialize_parts (moderation_decision w) a =
      read_iff Moderation.validate moderation_decision
        (λ c. derive x (Moderation.to_canonical_bytes x c)) ModerationDecisionV1.id
        "moderation decision id does not match content" w a
  deserialize_parts (subject_blocklist w) a =
      read_iff Blocklist.validate subject_blocklist
        (λ c. derive x (Blocklist.to_canonical_bytes x c)) BlocklistV1.id
        "blocklist id does not match content" w a

  -- `Deserialize` accepts exactly the artifacts whose fields are within the bounds of their kind and
  -- whose id is the BLAKE3 hash of their canonical bytes, unchanged, for each of the five kinds. The
  -- bounds are those of the kind's schema and version, a positive time and revision, 1 to 32 tag
  -- characters, the lengths of texts, 1 to 10 000 sorted distinct subjects, and a locator for what an
  -- indexer claims.
  pub deserialize_iff :
      (w a : Artifact)
      → (deserialize x w ≡ ok a)
        ↔ ((w ≡ a) × IsArtifact w × (artifact_id w ≡ derive x (canonical_bytes x w)))
  deserialize_iff w a =
      let (read_is, accepts) = deserialize_parts w a in
      let (valid, passes) = validate_iff w in
      (
        λ e. let (same, checked, id) = read_is e in (same, valid checked, id),
        λ (same, good, id). accepts (same, passes good, id),
      )

  -- What `new` returns is read back unchanged: an artifact of any of the five kinds that its
  -- constructor accepts passes `Deserialize`.
  pub new-deserialize : (d : Draft) (a : Artifact) → new x d ≡ ok a → deserialize x a ≡ ok a
  unfolding new deserialize read Claim.deserialize Collection.deserialize Tombstone.deserialize
      Moderation.deserialize Blocklist.deserialize Claim.validate Claim.to_canonical_bytes
      Collection.validate Collection.to_canonical_bytes Tombstone.validate
      Tombstone.to_canonical_bytes Moderation.validate Moderation.to_canonical_bytes
      Blocklist.validate Blocklist.to_canonical_bytes Claim.new Collection.new Tombstone.new
      Moderation.new Blocklist.new
  new-deserialize (claim_draft i s t o c r f) a e =
      read_new Claim.validate tag_claim (λ w. derive x (Claim.to_canonical_bytes x w)) TagClaimV1.id
        "tag claim id does not match content" _ _ a (deserialize x) refl refl refl e
  new-deserialize (collection_draft i t d s c r f) a e =
      read_new Collection.validate subject_collection
        (λ w. derive x (Collection.to_canonical_bytes x w)) CollectionV1.id
        "collection id does not match content" _ _ a (deserialize x) refl refl refl e
  new-deserialize (tombstone_draft i s t c r f) a e =
      read_new Tombstone.validate subject_tombstone
        (λ w. derive x (Tombstone.to_canonical_bytes x w)) TombstoneV1.id
        "tombstone id does not match content" _ _ a (deserialize x) refl refl refl e
  new-deserialize (decision_draft i s a' t c r f) a e =
      read_new Moderation.validate moderation_decision
        (λ w. derive x (Moderation.to_canonical_bytes x w)) ModerationDecisionV1.id
        "moderation decision id does not match content" _ _ a (deserialize x) refl refl refl e
  new-deserialize (blocklist_draft i t s c r f) a e =
      read_new Blocklist.validate subject_blocklist
        (λ w. derive x (Blocklist.to_canonical_bytes x w)) BlocklistV1.id
        "blocklist id does not match content" _ _ a (deserialize x) refl refl refl e
