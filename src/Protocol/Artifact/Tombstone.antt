-- ===== src/Protocol/Artifact/Tombstone.antt =====
-- crates/swarm-protocol/src/catalog.rs: `TombstoneV1`.
use pubky_swarm.Base.{ℕ, ◌++◌}
use pubky_swarm.Base.Bytes.{Bytes, codes}
use pubky_swarm.Base.Result.{Result, ok, ◌>>◌, guard, map_err}
use pubky_swarm.Protocol.Crates.{Crates}
use pubky_swarm.Protocol.Error.{Error, custom, custom_of}
use pubky_swarm.Protocol.Ids.{PublisherId}
use pubky_swarm.Protocol.Portable.{validate_text}
use pubky_swarm.Protocol.Subject.{SubjectRef, SourceAttribution}
use pubky_swarm.Protocol.Artifact.{
  ArtifactId, artifact_version, no_id, derive, same_id, validate_header, validate_source, write_u64,
  write_string, write_publisher, write_subject, write_source,
}

unfoldable pub schema_name : Bytes
schema_name = codes "pubky.swarm/tombstone"

unfoldable pub prefix : Bytes
prefix = codes "pubky.swarm/tombstone/v1" ++ codes "\0"

-- The wire record has the same fields.
pub record TombstoneV1 : Type 0 where
  pub schema : Bytes
  pub version : ℕ
  pub id : ArtifactId
  pub issuer : PublisherId
  pub subject : SubjectRef
  pub reason : Bytes
  pub created_at : ℕ
  pub revision : ℕ
  pub source : SourceAttribution

unfoldable pub validate : TombstoneV1 → Result Error (Unit {0})
validate tombstone = do
  validate_header tombstone.schema schema_name tombstone.version tombstone.created_at
      tombstone.revision
  validate_text "reason" tombstone.reason 0 1024
  validate_source tombstone.source

module _ (x : Crates) where
  unfoldable pub to_canonical_bytes : TombstoneV1 → Bytes
  to_canonical_bytes tombstone =
      prefix
      ++ (write_publisher tombstone.issuer
          ++ (write_subject x tombstone.subject
              ++ (write_string tombstone.reason
                  ++ (write_u64 tombstone.created_at
                      ++ (write_u64 tombstone.revision ++ (write_source tombstone.source))))))

  unfoldable pub new :
      PublisherId → SubjectRef → Bytes → ℕ → ℕ → SourceAttribution → Result Error TombstoneV1
  new issuer subject reason created_at revision source =
      let tombstone : TombstoneV1 = record {
        schema = schema_name;
        version = artifact_version;
        id = no_id;
        issuer = issuer;
        subject = subject;
        reason = reason;
        created_at = created_at;
        revision = revision;
        source = source;
      } in
      do validate tombstone; ok (record tombstone { id = derive x (to_canonical_bytes tombstone) })

  unfoldable pub deserialize : TombstoneV1 → Result Error TombstoneV1
  deserialize wire = do
    map_err custom_of (validate wire)
    guard (same_id wire.id (derive x (to_canonical_bytes wire)))
        (custom "tombstone id does not match content")
    ok wire
