-- ===== src/Protocol/Artifact/Canonical.antt =====
-- The canonical bytes tell artifacts apart, of one kind and of different kinds.
use mathlib.Core.Path.{ap}
use pubky_swarm.Base.{ℕ, ◌+◌, ◌*◌, ◌≡◌, refl, [], ◌∷◌, arith, take, drop}
use pubky_swarm.Base.Bytes.{Bytes, bytes_eq_iff}
use pubky_swarm.Base.Result.{Result, ok, ◌>>◌}
use pubky_swarm.Protocol.Crates.{Crates, HexLaws}
use pubky_swarm.Protocol.Error.{Error}
use pubky_swarm.Protocol.Artifact.{derive, validate_header, artifact_version}
use pubky_swarm.Protocol.Artifact.Claim.{TagClaimV1, TagOperation, add, remove, write_operation}
use pubky_swarm.Protocol.Artifact.Collection.{CollectionV1}
use pubky_swarm.Protocol.Artifact.Tombstone.{TombstoneV1}
use pubky_swarm.Protocol.Artifact.Moderation.{
  ModerationDecisionV1, ModerationAction, allow, block, review, write_action,
}
use pubky_swarm.Protocol.Artifact.Blocklist.{BlocklistV1}
use pubky_swarm.Protocol.Artifact.Claim
use pubky_swarm.Protocol.Artifact.Collection
use pubky_swarm.Protocol.Artifact.Tombstone
use pubky_swarm.Protocol.Artifact.Moderation
use pubky_swarm.Protocol.Artifact.Blocklist
use pubky_swarm.Protocol.Artifact.Accepted.{
  Artifact, tag_claim, subject_collection, subject_tombstone, moderation_decision,
  subject_blocklist, artifact_id, validate, canonical_bytes, deserialize, deserialize_parts,
}
use pubky_swarm.Protocol.Artifact.Fields.{
  IsInRange, claim-injective, collection-injective, tombstone-injective, decision-injective,
  blocklist-injective,
}

-- The schema and the version of what passes `validate_header`.
header_is :
    (schema expected : Bytes) (version created revision : ℕ) (rest : Result Error (Unit {0}))
    → (validate_header schema expected version created revision >> rest) ≡ ok tt
    → (schema ≡ expected) × (version ≡ artifact_version)
unfolding validate_header
header_is schema expected version created revision rest e =
    ground (arith, bytes_eq_iff schema expected)

same_header :
    (schema schema' : Bytes) (version version' created created' revision revision' : ℕ)
    (rest rest' : Result Error (Unit {0})) (expected : Bytes)
    → (validate_header schema expected version created revision >> rest) ≡ ok tt
    → (validate_header schema' expected version' created' revision' >> rest') ≡ ok tt
    → (schema ≡ schema') × (version ≡ version')
same_header s t m n c d r q rest rest' expected v w =
    let (s_is, m_is) = header_is s expected m c r rest v in
    let (t_is, n_is) = header_is t expected n d q rest' w in (cc (s_is, t_is), cc (m_is, n_is))

accepted :
    (x : Crates) (a : Artifact)
    → deserialize x a ≡ ok a
    → (validate a ≡ ok tt) × (artifact_id a ≡ derive x (canonical_bytes x a))
accepted x a e = let (_, v, i) = (deserialize_parts x a a).0 e in (v, i)

-- The two letters of the prefix after `pubky.swarm/`.
kind : Artifact → Bytes
kind (tag_claim a) = b't' ∷ b'a' ∷ []
kind (subject_collection a) = b'c' ∷ b'o' ∷ []
kind (subject_tombstone a) = b't' ∷ b'o' ∷ []
kind (moderation_decision a) = b'm' ∷ b'o' ∷ []
kind (subject_blocklist a) = b'b' ∷ b'l' ∷ []

kind_is : (x : Crates) (a : Artifact) → take 2 (drop 12 (canonical_bytes x a)) ≡ kind a
unfolding kind canonical_bytes Claim.to_canonical_bytes Claim.prefix Collection.to_canonical_bytes
    Collection.prefix Tombstone.to_canonical_bytes Tombstone.prefix Moderation.to_canonical_bytes
    Moderation.prefix Blocklist.to_canonical_bytes Blocklist.prefix
kind_is x (tag_claim a) = refl
kind_is x (subject_collection a) = refl
kind_is x (subject_tombstone a) = refl
kind_is x (moderation_decision a) = refl
kind_is x (subject_blocklist a) = refl

-- A number that tells the letters apart.
code : Bytes → ℕ
code (a ∷ b ∷ _) = 256 * a + b
code _ = 0

same_kind :
    (x : Crates) (a b : Artifact) → canonical_bytes x a ≡ canonical_bytes x b → kind a ≡ kind b
same_kind x a b e = cc (kind_is x a, kind_is x b, e)

module _ (x : Crates) (laws : HexLaws x) where
  -- Two artifacts, of any kinds, that `Deserialize` accepts are equal when their canonical bytes
  -- are: the bytes hold every field, and begin with a prefix of their kind. The fields are within
  -- the ranges of their types.
  pub canonical_bytes-injective :
      (a b : Artifact)
      → IsInRange a
      → IsInRange b
      → deserialize x a ≡ ok a
      → deserialize x b ≡ ok b
      → canonical_bytes x a ≡ canonical_bytes x b
      → a ≡ b
  unfolding canonical_bytes validate artifact_id kind code Claim.validate Collection.validate
      Tombstone.validate Moderation.validate Blocklist.validate
  canonical_bytes-injective (tag_claim a) (tag_claim b) h k p q e =
      let (v, i) = accepted x _ p in
      let (w, j) = accepted x _ q in
      let same = same_header _ _ _ _ _ _ _ _ _ _ Claim.schema_name v w in
      ap tag_claim (claim-injective x laws a b h k (same.0, same.1, cc (i, j, e)) e)
  canonical_bytes-injective (subject_collection a) (subject_collection b) h k p q e =
      let (v, i) = accepted x _ p in
      let (w, j) = accepted x _ q in
      let same = same_header _ _ _ _ _ _ _ _ _ _ Collection.schema_name v w in
      ap subject_collection (collection-injective x laws a b h k (same.0, same.1, cc (i, j, e)) e)
  canonical_bytes-injective (subject_tombstone a) (subject_tombstone b) h k p q e =
      let (v, i) = accepted x _ p in
      let (w, j) = accepted x _ q in
      let same = same_header _ _ _ _ _ _ _ _ _ _ Tombstone.schema_name v w in
      ap subject_tombstone (tombstone-injective x laws a b h k (same.0, same.1, cc (i, j, e)) e)
  canonical_bytes-injective (moderation_decision a) (moderation_decision b) h k p q e =
      let (v, i) = accepted x _ p in
      let (w, j) = accepted x _ q in
      let same = same_header _ _ _ _ _ _ _ _ _ _ Moderation.schema_name v w in
      ap moderation_decision (decision-injective x laws a b h k (same.0, same.1, cc (i, j, e)) e)
  canonical_bytes-injective (subject_blocklist a) (subject_blocklist b) h k p q e =
      let (v, i) = accepted x _ p in
      let (w, j) = accepted x _ q in
      let same = same_header _ _ _ _ _ _ _ _ _ _ Blocklist.schema_name v w in
      ap subject_blocklist (blocklist-injective x laws a b h k (same.0, same.1, cc (i, j, e)) e)
  canonical_bytes-injective a b h k p q e = absurd (omega (arith, ap code (same_kind x a b e)))
