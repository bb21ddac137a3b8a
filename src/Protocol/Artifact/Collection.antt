-- ===== src/Protocol/Artifact/Collection.antt =====
-- crates/swarm-protocol/src/catalog.rs: `CollectionV1`.
use pubky_swarm.Base.{ℕ, List, ◌++◌}
use pubky_swarm.Base.Bytes.{Bytes, codes}
use pubky_swarm.Base.Sort.{sort}
use pubky_swarm.Base.Result.{Result, ok, ◌>>◌, guard, map_err}
use pubky_swarm.Protocol.Crates.{Crates}
use pubky_swarm.Protocol.Error.{Error, custom, custom_of}
use pubky_swarm.Protocol.Ids.{PublisherId}
use pubky_swarm.Protocol.Portable.{validate_text}
use pubky_swarm.Protocol.Subject.{SubjectRef, SourceAttribution, subject_lt}
use pubky_swarm.Protocol.Artifact.{
  ArtifactId, artifact_version, no_id, derive, same_id, validate_header, validate_subjects,
  validate_source, write_u64, write_string, write_publisher, write_subjects, write_source,
}

unfoldable pub schema_name : Bytes
schema_name = codes "pubky.swarm/collection"

unfoldable pub prefix : Bytes
prefix = codes "pubky.swarm/collection/v1" ++ codes "\0"

-- The wire record has the same fields.
pub record CollectionV1 : Type 0 where
  pub schema : Bytes
  pub version : ℕ
  pub id : ArtifactId
  pub issuer : PublisherId
  pub title : Bytes
  pub description : Bytes
  pub subjects : List SubjectRef
  pub created_at : ℕ
  pub revision : ℕ
  pub source : SourceAttribution

unfoldable pub validate : CollectionV1 → Result Error (Unit {0})
validate collection = do
  validate_header collection.schema schema_name collection.version collection.created_at
      collection.revision
  validate_text "title" collection.title 1 200
  validate_text "description" collection.description 0 4000
  validate_subjects collection.subjects
  validate_source collection.source

module _ (x : Crates) where
  unfoldable pub to_canonical_bytes : CollectionV1 → Bytes
  to_canonical_bytes collection =
      prefix
      ++ (write_publisher collection.issuer
          ++ (write_string collection.title
              ++ (write_string collection.description
                  ++ (write_subjects x collection.subjects
                      ++ (write_u64 collection.created_at
                          ++ (write_u64 collection.revision
                              ++ (write_source collection.source)))))))

  unfoldable pub new :
      PublisherId
      → Bytes
      → Bytes
      → List SubjectRef
      → ℕ
      → ℕ
      → SourceAttribution
      → Result Error CollectionV1
  new issuer title description subjects created_at revision source =
      let collection : CollectionV1 = record {
        schema = schema_name;
        version = artifact_version;
        id = no_id;
        issuer = issuer;
        title = title;
        description = description;
        subjects = sort subject_lt subjects;
        created_at = created_at;
        revision = revision;
        source = source;
      } in
      do
        validate collection
        ok (record collection { id = derive x (to_canonical_bytes collection) })

  unfoldable pub deserialize : CollectionV1 → Result Error CollectionV1
  deserialize wire = do
    map_err custom_of (validate wire)
    guard (same_id wire.id (derive x (to_canonical_bytes wire)))
        (custom "collection id does not match content")
    ok wire
