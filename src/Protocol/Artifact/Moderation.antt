-- ===== src/Protocol/Artifact/Moderation.antt =====
-- crates/swarm-protocol/src/catalog.rs: `ModerationDecisionV1`.
use pubky_swarm.Base.{ℕ, [], ◌∷◌, ◌++◌}
use pubky_swarm.Base.Bytes.{Bytes, codes}
use pubky_swarm.Base.Result.{Result, ok, ◌>>◌, guard, map_err}
use pubky_swarm.Protocol.Crates.{Crates}
use pubky_swarm.Protocol.Error.{Error, custom, custom_of}
use pubky_swarm.Protocol.Ids.{PublisherId}
use pubky_swarm.Protocol.Portable.{validate_text}
use pubky_swarm.Protocol.Subject.{SubjectRef, SourceAttribution}
use pubky_swarm.Protocol.Artifact.{
  ArtifactId, artifact_version, no_id, derive, same_id, validate_header, validate_source, write_u64,
  write_string, write_publisher, write_subject, write_source,
}

pub data ModerationAction : Type 0 where
  allow block review : ModerationAction

unfoldable pub write_action : ModerationAction → Bytes
write_action allow = 0 ∷ []
write_action block = 1 ∷ []
write_action review = 2 ∷ []

unfoldable pub schema_name : Bytes
schema_name = codes "pubky.swarm/moderation-decision"

unfoldable pub prefix : Bytes
prefix = codes "pubky.swarm/moderation-decision/v1" ++ codes "\0"

-- The wire record has the same fields.
pub record ModerationDecisionV1 : Type 0 where
  pub schema : Bytes
  pub version : ℕ
  pub id : ArtifactId
  pub issuer : PublisherId
  pub subject : SubjectRef
  pub action : ModerationAction
  pub reason : Bytes
  pub created_at : ℕ
  pub revision : ℕ
  pub source : SourceAttribution

unfoldable pub validate : ModerationDecisionV1 → Result Error (Unit {0})
validate decision = do
  validate_header decision.schema schema_name decision.version decision.created_at decision.revision
  validate_text "reason" decision.reason 0 1024
  validate_source decision.source

module _ (x : Crates) where
  unfoldable pub to_canonical_bytes : ModerationDecisionV1 → Bytes
  to_canonical_bytes decision =
      prefix
      ++ (write_publisher decision.issuer
          ++ (write_subject x decision.subject
              ++ (write_action decision.action
                  ++ (write_string decision.reason
                      ++ (write_u64 decision.created_at
                          ++ (write_u64 decision.revision ++ (write_source decision.source)))))))

  unfoldable pub new :
      PublisherId
      → SubjectRef
      → ModerationAction
      → Bytes
      → ℕ
      → ℕ
      → SourceAttribution
      → Result Error ModerationDecisionV1
  new issuer subject action reason created_at revision source =
      let decision : ModerationDecisionV1 = record {
        schema = schema_name;
        version = artifact_version;
        id = no_id;
        issuer = issuer;
        subject = subject;
        action = action;
        reason = reason;
        created_at = created_at;
        revision = revision;
        source = source;
      } in
      do validate decision; ok (record decision { id = derive x (to_canonical_bytes decision) })

  unfoldable pub deserialize : ModerationDecisionV1 → Result Error ModerationDecisionV1
  deserialize wire = do
    map_err custom_of (validate wire)
    guard (same_id wire.id (derive x (to_canonical_bytes wire)))
        (custom "moderation decision id does not match content")
    ok wire
