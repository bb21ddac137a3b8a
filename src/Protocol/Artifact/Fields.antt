-- ===== src/Protocol/Artifact/Fields.antt =====
-- The canonical bytes of each kind of artifact hold all its fields.
use pubky_swarm.Base.{◌≡◌, refl}
use pubky_swarm.Protocol.Crates.{Crates, HexLaws}
use pubky_swarm.Protocol.Artifact.Claim.{TagClaimV1, TagOperation, add, remove, write_operation}
use pubky_swarm.Protocol.Artifact.Collection.{CollectionV1}
use pubky_swarm.Protocol.Artifact.Tombstone.{TombstoneV1}
use pubky_swarm.Protocol.Artifact.Moderation.{
  ModerationDecisionV1, ModerationAction, allow, block, review, write_action,
}
use pubky_swarm.Protocol.Artifact.Blocklist.{BlocklistV1}
use pubky_swarm.Protocol.Artifact.Claim
use pubky_swarm.Protocol.Artifact.Collection
use pubky_swarm.Protocol.Artifact.Tombstone
use pubky_swarm.Protocol.Artifact.Moderation
use pubky_swarm.Protocol.Artifact.Blocklist
use pubky_swarm.Protocol.Artifact.Accepted.{
  Artifact, tag_claim, subject_collection, subject_tombstone, moderation_decision,
  subject_blocklist,
}
use pubky_swarm.Protocol.Artifact.Writer.{
  IsDelimited, prefix_cancel, IsU64, IsText, IsKey, IsSubject, IsSubjects, IsSource,
  write_string-IsDelimited, write_publisher-IsDelimited, write_subject-IsDelimited,
  write_subjects-IsDelimited, end-injective,
}

write_operation-IsDelimited : IsDelimited (λ _. Unit {0}) write_operation
unfolding write_operation
write_operation-IsDelimited add add s t h k e = (refl, cc)
write_operation-IsDelimited remove remove s t h k e = (refl, cc)
write_operation-IsDelimited a b s t h k e = cc

write_action-IsDelimited : IsDelimited (λ _. Unit {0}) write_action
unfolding write_action
write_action-IsDelimited allow allow s t h k e = (refl, cc)
write_action-IsDelimited block block s t h k e = (refl, cc)
write_action-IsDelimited review review s t h k e = (refl, cc)
write_action-IsDelimited a b s t h k e = cc

-- What the types of the fields say: lengths and times below 2^64, keys of 32 bytes, hashes of
-- their length.
abbrev pub IsInRange : Artifact → Type 0
IsInRange (tag_claim a) =
    IsKey a.issuer
    × IsSubject a.subject
    × IsText a.tag
    × (IsU64 a.created_at × IsU64 a.revision × IsSource a.source)
IsInRange (subject_collection a) =
    IsKey a.issuer
    × IsText a.title
    × IsText a.description
    × IsSubjects a.subjects
    × (IsU64 a.created_at × IsU64 a.revision × IsSource a.source)
IsInRange (subject_tombstone a) =
    IsKey a.issuer
    × IsSubject a.subject
    × IsText a.reason
    × (IsU64 a.created_at × IsU64 a.revision × IsSource a.source)
IsInRange (moderation_decision a) =
    IsKey a.issuer
    × IsSubject a.subject
    × IsText a.reason
    × (IsU64 a.created_at × IsU64 a.revision × IsSource a.source)
IsInRange (subject_blocklist a) =
    IsKey a.issuer
    × IsText a.title
    × IsSubjects a.subjects
    × (IsU64 a.created_at × IsU64 a.revision × IsSource a.source)

same_claim :
    (a b : TagClaimV1)
    → (a.schema ≡ b.schema) × (a.version ≡ b.version) × (a.id ≡ b.id)
    → a.issuer ≡ b.issuer
    → a.subject ≡ b.subject
    → a.tag ≡ b.tag
    → a.operation ≡ b.operation
    → (a.created_at ≡ b.created_at) × (a.revision ≡ b.revision) × (a.source ≡ b.source)
    → a ≡ b
same_claim a b p q r s t u = cc

same_collection :
    (a b : CollectionV1)
    → (a.schema ≡ b.schema) × (a.version ≡ b.version) × (a.id ≡ b.id)
    → a.issuer ≡ b.issuer
    → a.title ≡ b.title
    → a.description ≡ b.description
    → a.subjects ≡ b.subjects
    → (a.created_at ≡ b.created_at) × (a.revision ≡ b.revision) × (a.source ≡ b.source)
    → a ≡ b
same_collection a b p q r s t u = cc

same_tombstone :
    (a b : TombstoneV1)
    → (a.schema ≡ b.schema) × (a.version ≡ b.version) × (a.id ≡ b.id)
    → a.issuer ≡ b.issuer
    → a.subject ≡ b.subject
    → a.reason ≡ b.reason
    → (a.created_at ≡ b.created_at) × (a.revision ≡ b.revision) × (a.source ≡ b.source)
    → a ≡ b
same_tombstone a b p q r s u = cc

same_decision :
    (a b : ModerationDecisionV1)
    → (a.schema ≡ b.schema) × (a.version ≡ b.version) × (a.id ≡ b.id)
    → a.issuer ≡ b.issuer
    → a.subject ≡ b.subject
    → a.action ≡ b.action
    → a.reason ≡ b.reason
    → (a.created_at ≡ b.created_at) × (a.revision ≡ b.revision) × (a.source ≡ b.source)
    → a ≡ b
same_decision a b p q r s t u = cc

same_blocklist :
    (a b : BlocklistV1)
    → (a.schema ≡ b.schema) × (a.version ≡ b.version) × (a.id ≡ b.id)
    → a.issuer ≡ b.issuer
    → a.title ≡ b.title
    → a.subjects ≡ b.subjects
    → (a.created_at ≡ b.created_at) × (a.revision ≡ b.revision) × (a.source ≡ b.source)
    → a ≡ b
same_blocklist a b p q r s u = cc

module _ (x : Crates) (laws : HexLaws x) where
  pub claim-injective :
      (a b : TagClaimV1)
      → IsInRange (tag_claim a)
      → IsInRange (tag_claim b)
      → (a.schema ≡ b.schema) × (a.version ≡ b.version) × (a.id ≡ b.id)
      → Claim.to_canonical_bytes x a ≡ Claim.to_canonical_bytes x b
      → a ≡ b
  unfolding Claim.to_canonical_bytes
  claim-injective a b (h₁, h₂, h₃, h) (k₁, k₂, k₃, k) same e =
      let e₁ = prefix_cancel Claim.prefix _ _ e in
      let (issuer, e₂) = write_publisher-IsDelimited a.issuer b.issuer _ _ h₁ k₁ e₁ in
      let (subject, e₃) = write_subject-IsDelimited x laws a.subject b.subject _ _ h₂ k₂ e₂ in
      let (tag, e₄) = write_string-IsDelimited a.tag b.tag _ _ h₃ k₃ e₃ in
      let (operation, e₅) = write_operation-IsDelimited a.operation b.operation _ _ tt tt e₄ in
      let ends = end-injective _ _ _ _ a.source b.source h k e₅ in
      same_claim a b same issuer subject tag operation ends

  pub collection-injective :
      (a b : CollectionV1)
      → IsInRange (subject_collection a)
      → IsInRange (subject_collection b)
      → (a.schema ≡ b.schema) × (a.version ≡ b.version) × (a.id ≡ b.id)
      → Collection.to_canonical_bytes x a ≡ Collection.to_canonical_bytes x b
      → a ≡ b
  unfolding Collection.to_canonical_bytes
  collection-injective a b (h₁, h₂, h₃, h₄, h) (k₁, k₂, k₃, k₄, k) same e =
      let e₁ = prefix_cancel Collection.prefix _ _ e in
      let (issuer, e₂) = write_publisher-IsDelimited a.issuer b.issuer _ _ h₁ k₁ e₁ in
      let (title, e₃) = write_string-IsDelimited a.title b.title _ _ h₂ k₂ e₂ in
      let (description, e₄) = write_string-IsDelimited a.description b.description _ _ h₃ k₃ e₃ in
      let (subjects, e₅) = write_subjects-IsDelimited x laws a.subjects b.subjects _ _ h₄ k₄ e₄ in
      let ends = end-injective _ _ _ _ a.source b.source h k e₅ in
      same_collection a b same issuer title description subjects ends

  pub tombstone-injective :
      (a b : TombstoneV1)
      → IsInRange (subject_tombstone a)
      → IsInRange (subject_tombstone b)
      → (a.schema ≡ b.schema) × (a.version ≡ b.version) × (a.id ≡ b.id)
      → Tombstone.to_canonical_bytes x a ≡ Tombstone.to_canonical_bytes x b
      → a ≡ b
  unfolding Tombstone.to_canonical_bytes
  tombstone-injective a b (h₁, h₂, h₃, h) (k₁, k₂, k₃, k) same e =
      let e₁ = prefix_cancel Tombstone.prefix _ _ e in
      let (issuer, e₂) = write_publisher-IsDelimited a.issuer b.issuer _ _ h₁ k₁ e₁ in
      let (subject, e₃) = write_subject-IsDelimited x laws a.subject b.subject _ _ h₂ k₂ e₂ in
      let (reason, e₄) = write_string-IsDelimited a.reason b.reason _ _ h₃ k₃ e₃ in
      let ends = end-injective _ _ _ _ a.source b.source h k e₄ in
      same_tombstone a b same issuer subject reason ends

  pub decision-injective :
      (a b : ModerationDecisionV1)
      → IsInRange (moderation_decision a)
      → IsInRange (moderation_decision b)
      → (a.schema ≡ b.schema) × (a.version ≡ b.version) × (a.id ≡ b.id)
      → Moderation.to_canonical_bytes x a ≡ Moderation.to_canonical_bytes x b
      → a ≡ b
  unfolding Moderation.to_canonical_bytes
  decision-injective a b (h₁, h₂, h₃, h) (k₁, k₂, k₃, k) same e =
      let e₁ = prefix_cancel Moderation.prefix _ _ e in
      let (issuer, e₂) = write_publisher-IsDelimited a.issuer b.issuer _ _ h₁ k₁ e₁ in
      let (subject, e₃) = write_subject-IsDelimited x laws a.subject b.subject _ _ h₂ k₂ e₂ in
      let (action, e₄) = write_action-IsDelimited a.action b.action _ _ tt tt e₃ in
      let (reason, e₅) = write_string-IsDelimited a.reason b.reason _ _ h₃ k₃ e₄ in
      let ends = end-injective _ _ _ _ a.source b.source h k e₅ in
      same_decision a b same issuer subject action reason ends

  pub blocklist-injective :
      (a b : BlocklistV1)
      → IsInRange (subject_blocklist a)
      → IsInRange (subject_blocklist b)
      → (a.schema ≡ b.schema) × (a.version ≡ b.version) × (a.id ≡ b.id)
      → Blocklist.to_canonical_bytes x a ≡ Blocklist.to_canonical_bytes x b
      → a ≡ b
  unfolding Blocklist.to_canonical_bytes
  blocklist-injective a b (h₁, h₂, h₃, h) (k₁, k₂, k₃, k) same e =
      let e₁ = prefix_cancel Blocklist.prefix _ _ e in
      let (issuer, e₂) = write_publisher-IsDelimited a.issuer b.issuer _ _ h₁ k₁ e₁ in
      let (title, e₃) = write_string-IsDelimited a.title b.title _ _ h₂ k₂ e₂ in
      let (subjects, e₄) = write_subjects-IsDelimited x laws a.subjects b.subjects _ _ h₃ k₃ e₃ in
      let ends = end-injective _ _ _ _ a.source b.source h k e₄ in
      same_blocklist a b same issuer title subjects ends
