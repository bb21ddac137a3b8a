-- ===== src/Protocol/Artifact/Blocklist.antt =====
-- crates/swarm-protocol/src/catalog.rs: `BlocklistV1`.
use pubky_swarm.Base.{ℕ, List, ◌++◌}
use pubky_swarm.Base.Bytes.{Bytes, codes}
use pubky_swarm.Base.Sort.{sort}
use pubky_swarm.Base.Result.{Result, ok, ◌>>◌, guard, map_err}
use pubky_swarm.Protocol.Crates.{Crates}
use pubky_swarm.Protocol.Error.{Error, custom, custom_of}
use pubky_swarm.Protocol.Ids.{PublisherId}
use pubky_swarm.Protocol.Portable.{validate_text}
use pubky_swarm.Protocol.Subject.{SubjectRef, SourceAttribution, subject_lt}
use pubky_swarm.Protocol.Artifact.{
  ArtifactId, artifact_version, no_id, derive, same_id, validate_header, validate_subjects,
  validate_source, write_u64, write_string, write_publisher, write_subjects, write_source,
}

unfoldable pub schema_name : Bytes
schema_name = codes "pubky.swarm/blocklist"

unfoldable pub prefix : Bytes
prefix = codes "pubky.swarm/blocklist/v1" ++ codes "\0"

-- The wire record has the same fields.
pub record BlocklistV1 : Type 0 where
  pub schema : Bytes
  pub version : ℕ
  pub id : ArtifactId
  pub issuer : PublisherId
  pub title : Bytes
  pub subjects : List SubjectRef
  pub created_at : ℕ
  pub revision : ℕ
  pub source : SourceAttribution

unfoldable pub validate : BlocklistV1 → Result Error (Unit {0})
validate blocklist = do
  validate_header blocklist.schema schema_name blocklist.version blocklist.created_at
      blocklist.revision
  validate_text "title" blocklist.title 1 200
  validate_subjects blocklist.subjects
  validate_source blocklist.source

module _ (x : Crates) where
  unfoldable pub to_canonical_bytes : BlocklistV1 → Bytes
  to_canonical_bytes blocklist =
      prefix
      ++ (write_publisher blocklist.issuer
          ++ (write_string blocklist.title
              ++ (write_subjects x blocklist.subjects
                  ++ (write_u64 blocklist.created_at
                      ++ (write_u64 blocklist.revision ++ (write_source blocklist.source))))))

  unfoldable pub new :
      PublisherId → Bytes → List SubjectRef → ℕ → ℕ → SourceAttribution → Result Error BlocklistV1
  new issuer title subjects created_at revision source =
      let blocklist : BlocklistV1 = record {
        schema = schema_name;
        version = artifact_version;
        id = no_id;
        issuer = issuer;
        title = title;
        subjects = sort subject_lt subjects;
        created_at = created_at;
        revision = revision;
        source = source;
      } in
      do validate blocklist; ok (record blocklist { id = derive x (to_canonical_bytes blocklist) })

  unfoldable pub deserialize : BlocklistV1 → Result Error BlocklistV1
  deserialize wire = do
    map_err custom_of (validate wire)
    guard (same_id wire.id (derive x (to_canonical_bytes wire)))
        (custom "blocklist id does not match content")
    ok wire
