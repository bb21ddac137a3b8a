-- ===== src/Protocol/Artifact/Valid.antt =====
-- What the `validate` of the five kinds of artifact accepts.
use pubky_swarm.Base.{
  ℕ, ◌≤◌, ◌<◌, ◌≡◌, ◌≢◌, ◌↔◌, ◌⊎◌, refl, true, Bool, ◌||◌, none, some, [], ◌∷◌, ◌==◌, arith, length,
  All, all,
}
use pubky_swarm.Base.Bytes.{Bytes, codes, bytes_eq_iff, is_digit, is_ascii_lowercase}
use pubky_swarm.Base.Split.{bytes_eq_nil_iff}
use pubky_swarm.Base.Result.{Result, ok, err, ◌>>◌}
use pubky_swarm.Protocol.Error.{Error}
use pubky_swarm.Protocol.Ids.{PublisherId}
use pubky_swarm.Protocol.Import.{
  info_authenticated, top_level_hint, magnet_hint, indexer_claim, local_client,
}
use pubky_swarm.Protocol.Portable.Text.{IsText, validate_text_iff}
use pubky_swarm.Protocol.Subject.{SourceAttribution, direct, source_uri, imported}
use pubky_swarm.Protocol.Artifact.{validate_header, validate_source, validate_tag}
use pubky_swarm.Protocol.Artifact.Subjects.{IsCanonical, validate_subjects_iff}
use pubky_swarm.Protocol.Artifact.Claim.{TagClaimV1}
use pubky_swarm.Protocol.Artifact.Collection.{CollectionV1}
use pubky_swarm.Protocol.Artifact.Tombstone.{TombstoneV1}
use pubky_swarm.Protocol.Artifact.Moderation.{ModerationDecisionV1}
use pubky_swarm.Protocol.Artifact.Blocklist.{BlocklistV1}
use pubky_swarm.Protocol.Artifact.Claim
use pubky_swarm.Protocol.Artifact.Collection
use pubky_swarm.Protocol.Artifact.Tombstone
use pubky_swarm.Protocol.Artifact.Moderation
use pubky_swarm.Protocol.Artifact.Blocklist

-- The schema's name in version 1, a time and a revision.
abbrev pub IsHeader : Bytes → Bytes → ℕ → ℕ → ℕ → Type 0
IsHeader schema name version created_at revision =
    (schema ≡ name) × (version ≡ 1) × (0 < created_at) × (0 < revision)

-- `a` to `z`, `0` to `9` or `-`.
abbrev pub IsTagByte : ℕ → Type 0
IsTagByte b = ((97 ≤ b) × (b ≤ 122)) ⊎ ((48 ≤ b) × (b ≤ 57)) ⊎ (b ≡ 45)

abbrev pub IsTag : Bytes → Type 0
IsTag tag = (0 < length tag) × (length tag ≤ 32) × All IsTagByte tag

-- A claim of an indexer comes with the place where it was found.
abbrev pub IsAttributed : SourceAttribution → Type 0
IsAttributed source = (issuer : PublisherId) → source ≢ imported (indexer_claim issuer) none

seq_iff :
    {P Q : Type 0} (m k : Result Error (Unit {0}))
    → (m ≡ ok tt) ↔ P
    → (k ≡ ok tt) ↔ Q
    → ((m >> k) ≡ ok tt) ↔ (P × Q)
seq_iff (ok tt) k h l = (λ e. (h.0 refl, l.0 e), λ (p, q). l.1 q)
seq_iff (err e) k h l = (λ e. cc, λ (p, q). cc (h.1 p))

validate_header_iff :
    (schema name : Bytes) (version created_at revision : ℕ)
    → (validate_header schema name version created_at revision ≡ ok tt)
      ↔ IsHeader schema name version created_at revision
unfolding validate_header
validate_header_iff schema name version created_at revision =
    ground (arith, bytes_eq_iff schema name)

tag_byte : ℕ → Bool
tag_byte b = is_ascii_lowercase b || is_digit b || b == b'-'

tag_byte_iff : (b : ℕ) → (tag_byte b ≡ true) ↔ IsTagByte b
unfolding tag_byte
tag_byte_iff b = ground arith

all-IsTagByte : (s : Bytes) → (all tag_byte s ≡ true) ↔ All IsTagByte s
all-IsTagByte [] = (λ h. tt, λ h. refl)
all-IsTagByte (b ∷ s) = (
  λ h. ((tag_byte_iff b).0 (ground (arith, h)), (all-IsTagByte s).0 (ground (arith, h))),
  λ (h, hs). ground (arith, (tag_byte_iff b).1 h, (all-IsTagByte s).1 hs),
)

validate_tag_iff : (s : Bytes) → (validate_tag s ≡ ok tt) ↔ IsTag s
unfolding validate_tag tag_byte
validate_tag_iff s = (
  λ h. (
    (bytes_eq_nil_iff s).0 (ground (arith, h)),
    ground (arith, h),
    (all-IsTagByte s).0 (ground (arith, h)),
  ),
  λ (some_bytes, short, good).
      ground (arith, short, (bytes_eq_nil_iff s).1 some_bytes, (all-IsTagByte s).1 good),
)

validate_source_iff :
    (source : SourceAttribution) → (validate_source source ≡ ok tt) ↔ IsAttributed source
unfolding validate_source
validate_source_iff direct = (λ h issuer e. cc, λ h. refl)
validate_source_iff (source_uri address) = (λ h issuer e. cc, λ h. refl)
validate_source_iff (imported info_authenticated locator) = (λ h issuer e. cc, λ h. refl)
validate_source_iff (imported top_level_hint locator) = (λ h issuer e. cc, λ h. refl)
validate_source_iff (imported magnet_hint locator) = (λ h issuer e. cc, λ h. refl)
validate_source_iff (imported (indexer_claim issuer) none) =
    (λ h issuer' e. cc, λ h. absurd (h issuer refl))
validate_source_iff (imported (indexer_claim issuer) (some address)) =
    (λ h issuer' e. cc, λ h. refl)
validate_source_iff (imported local_client locator) = (λ h issuer e. cc, λ h. refl)

-- Each kind's fields within their bounds.
abbrev pub IsTagClaim : TagClaimV1 → Type 0
IsTagClaim c =
    IsHeader c.schema (codes "pubky.swarm/tag-claim") c.version c.created_at c.revision
    × (IsTag c.tag × IsAttributed c.source)

abbrev pub IsCollection : CollectionV1 → Type 0
IsCollection c =
    IsHeader c.schema (codes "pubky.swarm/collection") c.version c.created_at c.revision
    × (IsText c.title 1 200
        × (IsText c.description 0 4000 × (IsCanonical c.subjects × IsAttributed c.source)))

abbrev pub IsTombstone : TombstoneV1 → Type 0
IsTombstone t =
    IsHeader t.schema (codes "pubky.swarm/tombstone") t.version t.created_at t.revision
    × (IsText t.reason 0 1024 × IsAttributed t.source)

abbrev pub IsDecision : ModerationDecisionV1 → Type 0
IsDecision d =
    IsHeader d.schema (codes "pubky.swarm/moderation-decision") d.version d.created_at d.revision
    × (IsText d.reason 0 1024 × IsAttributed d.source)

abbrev pub IsBlocklist : BlocklistV1 → Type 0
IsBlocklist b =
    IsHeader b.schema (codes "pubky.swarm/blocklist") b.version b.created_at b.revision
    × (IsText b.title 1 200 × (IsCanonical b.subjects × IsAttributed b.source))

pub validate-IsTagClaim_iff : (c : TagClaimV1) → (Claim.validate c ≡ ok tt) ↔ IsTagClaim c
unfolding Claim.validate Claim.schema_name
validate-IsTagClaim_iff c =
    seq_iff _ _ (validate_header_iff c.schema _ c.version c.created_at c.revision)
      (seq_iff _ _ (validate_tag_iff c.tag) (validate_source_iff c.source))

pub validate-IsCollection_iff :
    (c : CollectionV1) → (Collection.validate c ≡ ok tt) ↔ IsCollection c
unfolding Collection.validate Collection.schema_name
validate-IsCollection_iff c =
    seq_iff _ _ (validate_header_iff c.schema _ c.version c.created_at c.revision) (
      seq_iff _ _ (validate_text_iff "title" c.title 1 200) (
        seq_iff _ _ (validate_text_iff "description" c.description 0 4000)
          (seq_iff _ _ (validate_subjects_iff c.subjects) (validate_source_iff c.source))))

pub validate-IsTombstone_iff : (t : TombstoneV1) → (Tombstone.validate t ≡ ok tt) ↔ IsTombstone t
unfolding Tombstone.validate Tombstone.schema_name
validate-IsTombstone_iff t =
    seq_iff _ _ (validate_header_iff t.schema _ t.version t.created_at t.revision)
      (seq_iff _ _ (validate_text_iff "reason" t.reason 0 1024) (validate_source_iff t.source))

pub validate-IsDecision_iff :
    (d : ModerationDecisionV1) → (Moderation.validate d ≡ ok tt) ↔ IsDecision d
unfolding Moderation.validate Moderation.schema_name
validate-IsDecision_iff d =
    seq_iff _ _ (validate_header_iff d.schema _ d.version d.created_at d.revision)
      (seq_iff _ _ (validate_text_iff "reason" d.reason 0 1024) (validate_source_iff d.source))

pub validate-IsBlocklist_iff : (b : BlocklistV1) → (Blocklist.validate b ≡ ok tt) ↔ IsBlocklist b
unfolding Blocklist.validate Blocklist.schema_name
validate-IsBlocklist_iff b =
    seq_iff _ _ (validate_header_iff b.schema _ b.version b.created_at b.revision) (
      seq_iff _ _ (validate_text_iff "title" b.title 1 200)
        (seq_iff _ _ (validate_subjects_iff b.subjects) (validate_source_iff b.source)))
