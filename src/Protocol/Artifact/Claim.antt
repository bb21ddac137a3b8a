-- ===== src/Protocol/Artifact/Claim.antt =====
-- crates/swarm-protocol/src/catalog.rs: `TagClaimV1`.
use pubky_swarm.Base.{ℕ, [], ◌∷◌, ◌++◌}
use pubky_swarm.Base.Bytes.{Bytes, codes}
use pubky_swarm.Base.Result.{Result, ok, ◌>>◌, guard, map_err}
use pubky_swarm.Protocol.Crates.{Crates}
use pubky_swarm.Protocol.Error.{Error, custom, custom_of}
use pubky_swarm.Protocol.Ids.{PublisherId}
use pubky_swarm.Protocol.Subject.{SubjectRef, SourceAttribution}
use pubky_swarm.Protocol.Artifact.{
  ArtifactId, artifact_version, no_id, derive, same_id, validate_header, validate_source,
  validate_tag, write_u64, write_string, write_publisher, write_subject, write_source,
}

pub data TagOperation : Type 0 where
  add remove : TagOperation

unfoldable pub write_operation : TagOperation → Bytes
write_operation add = 0 ∷ []
write_operation remove = 1 ∷ []

unfoldable pub schema_name : Bytes
schema_name = codes "pubky.swarm/tag-claim"

unfoldable pub prefix : Bytes
prefix = codes "pubky.swarm/tag-claim/v1" ++ codes "\0"

-- The wire record has the same fields.
pub record TagClaimV1 : Type 0 where
  pub schema : Bytes
  pub version : ℕ
  pub id : ArtifactId
  pub issuer : PublisherId
  pub subject : SubjectRef
  pub tag : Bytes
  pub operation : TagOperation
  pub created_at : ℕ
  pub revision : ℕ
  pub source : SourceAttribution

unfoldable pub validate : TagClaimV1 → Result Error (Unit {0})
validate claim = do
  validate_header claim.schema schema_name claim.version claim.created_at claim.revision
  validate_tag claim.tag
  validate_source claim.source

module _ (x : Crates) where
  unfoldable pub to_canonical_bytes : TagClaimV1 → Bytes
  to_canonical_bytes claim =
      prefix
      ++ (write_publisher claim.issuer
          ++ (write_subject x claim.subject
              ++ (write_string claim.tag
                  ++ (write_operation claim.operation
                      ++ (write_u64 claim.created_at
                          ++ (write_u64 claim.revision ++ (write_source claim.source)))))))

  unfoldable pub new :
      PublisherId
      → SubjectRef
      → Bytes
      → TagOperation
      → ℕ
      → ℕ
      → SourceAttribution
      → Result Error TagClaimV1
  new issuer subject tag operation created_at revision source =
      let claim : TagClaimV1 = record {
        schema = schema_name;
        version = artifact_version;
        id = no_id;
        issuer = issuer;
        subject = subject;
        tag = tag;
        operation = operation;
        created_at = created_at;
        revision = revision;
        source = source;
      } in
      do validate claim; ok (record claim { id = derive x (to_canonical_bytes claim) })

  unfoldable pub deserialize : TagClaimV1 → Result Error TagClaimV1
  deserialize wire = do
    map_err custom_of (validate wire)
    guard (same_id wire.id (derive x (to_canonical_bytes wire)))
        (custom "tag claim id does not match content")
    ok wire
