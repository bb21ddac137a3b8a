-- ===== src/Store/Catalog.antt =====
-- crates/swarm-store/src/catalog.rs: cached artifacts. The JSON of an artifact and its parser are parameters.
pub mod Loaded
use pubky_swarm.Base.{
  ℕ, ◌≡◌, Bool, true, false, not, ◌&&◌, ◌||◌, Option, none, some, List, [], ◌∷◌, ◌++◌, map, ltb,
  leb, ◌==◌, if◌then◌else◌, take, min, any,
}
use pubky_swarm.Base.Bytes.{Bytes, bytes_eq, bytes_lt}
use pubky_swarm.Base.Result.{Result, ok, err, ◌>>=◌, ◌>>◌, guard, ok_or, map_err}
use pubky_swarm.Base.Sort.{sort}
use pubky_swarm.Protocol.Crates.{Crates}
use pubky_swarm.Protocol.Ids.{PublisherId}
use pubky_swarm.Protocol.Subject.{CanonicalUri, canonical_uri_new, SubjectRef, subject_to_text}
use pubky_swarm.Protocol.Artifact.{ArtifactId, id_to_text}
use pubky_swarm.Protocol.Artifact.Claim.{TagClaimV1}
use pubky_swarm.Protocol.Artifact.Collection.{CollectionV1}
use pubky_swarm.Protocol.Artifact.Tombstone.{TombstoneV1}
use pubky_swarm.Protocol.Artifact.Moderation.{ModerationDecisionV1}
use pubky_swarm.Protocol.Artifact.Blocklist.{BlocklistV1}
use pubky_swarm.Store.{
  Libraries, CachedArtifact, AuthoritySequence, Subscription, Store, connection, bind, clock,
  check_positive,
}
use pubky_swarm.Store.Failures.{Error, protocol, json, invalid_authority_sequence}
use pubky_swarm.Store.Follows.{publisher_text, parse_publisher, parse_each}
use pubky_swarm.Store.Table.{has, find, insert_new, upsert, keep}

-- `ORDER BY created_at DESC, issuer ASC, id ASC`.
unfoldable pub recent_first : CachedArtifact → CachedArtifact → Bool
recent_first a b =
    ltb b.created_at a.created_at
    || (a.created_at == b.created_at
        && (bytes_lt a.issuer b.issuer || (bytes_eq a.issuer b.issuer && bytes_lt a.id b.id)))

-- `ORDER BY revision DESC, created_at DESC, id ASC`.
unfoldable pub latest_first : CachedArtifact → CachedArtifact → Bool
latest_first a b =
    ltb b.revision a.revision
    || (a.revision == b.revision
        && (ltb b.created_at a.created_at || (a.created_at == b.created_at && bytes_lt a.id b.id)))

-- The insertion into one of the five tables, `ON CONFLICT(id) DO NOTHING`.
unfoldable pub insert_artifact :
    Libraries → CachedArtifact → List CachedArtifact → Result Error (List CachedArtifact)
insert_artifact lib row rows = do
  _ ← bind lib row.created_at
  _ ← bind lib row.revision
  check_positive row.created_at
  check_positive row.revision
  ok (insert_new bytes_eq CachedArtifact.id row rows)

-- The row of an id.
unfoldable pub row_of : ArtifactId → Bytes → Bytes → ℕ → ℕ → Crates → PublisherId → CachedArtifact
row_of id subject text created_at revision x issuer = record {
  id = id_to_text x id;
  issuer = publisher_text x issuer;
  subject = subject;
  created_at = created_at;
  revision = revision;
  json = text;
}

module _ (x : Crates) (lib : Libraries) where
  unfoldable pub cache_tag_claim : (TagClaimV1 → Bytes) → TagClaimV1 → Store → Result Error Store
  cache_tag_claim to_json a store = do
    connection store
    rows ←
        insert_artifact lib
          (row_of a.id (subject_to_text x a.subject) (to_json a) a.created_at a.revision x a.issuer)
          store.tag_claims
    ok (record store { tag_claims = rows })

  unfoldable pub cache_collection :
      (CollectionV1 → Bytes) → CollectionV1 → Store → Result Error Store
  cache_collection to_json a store = do
    connection store
    rows ←
        insert_artifact lib (row_of a.id [] (to_json a) a.created_at a.revision x a.issuer)
          store.collections
    ok (record store { collections = rows })

  unfoldable pub cache_tombstone : (TombstoneV1 → Bytes) → TombstoneV1 → Store → Result Error Store
  cache_tombstone to_json a store = do
    connection store
    rows ←
        insert_artifact lib
          (row_of a.id (subject_to_text x a.subject) (to_json a) a.created_at a.revision x a.issuer)
          store.tombstones
    ok (record store { tombstones = rows })

  unfoldable pub cache_moderation_decision :
      (ModerationDecisionV1 → Bytes) → ModerationDecisionV1 → Store → Result Error Store
  cache_moderation_decision to_json a store = do
    connection store
    rows ←
        insert_artifact lib
          (row_of a.id (subject_to_text x a.subject) (to_json a) a.created_at a.revision x a.issuer)
          store.moderation_decisions
    ok (record store { moderation_decisions = rows })

  unfoldable pub cache_blocklist : (BlocklistV1 → Bytes) → BlocklistV1 → Store → Result Error Store
  cache_blocklist to_json a store = do
    connection store
    rows ←
        insert_artifact lib (row_of a.id [] (to_json a) a.created_at a.revision x a.issuer)
          store.blocklists
    ok (record store { blocklists = rows })

-- The two ways to load artifacts, given the parser of their JSON.
module _ {A : Type 0} (of_json : Bytes → Option A) where
  parse_row : CachedArtifact → Result Error A
  parse_row row = ok_or (of_json row.json) json

  unfoldable pub load_artifact : Option CachedArtifact → Result Error (Option A)
  unfolding parse_row
  load_artifact none = ok none
  load_artifact (some row) = do value ← parse_row row; ok (some value)

  unfoldable pub load_artifacts : List CachedArtifact → Result Error (List A)
  load_artifacts rows =
      parse_each (λ value. ok_or (of_json value) json) (map CachedArtifact.json rows)

unfoldable pub about : Bytes → List CachedArtifact → List CachedArtifact
about subject = keep (λ row. bytes_eq row.subject subject)

unfoldable pub issued_by : Bytes → List CachedArtifact → List CachedArtifact
issued_by issuer = keep (λ row. bytes_eq row.issuer issuer)

-- `MAX(revision)`.
unfoldable pub max_revision : List CachedArtifact → Option ℕ
max_revision [] = none
max_revision (row ∷ rows) = elim (max_revision rows) [
  | none ↦ some row.revision
  | some highest ↦ some (if ltb highest row.revision then row.revision else highest)
]

module _ (x : Crates) where
  unfoldable pub tag_claims_for :
      (Bytes → Option TagClaimV1) → SubjectRef → Store → Result Error (List TagClaimV1)
  tag_claims_for of_json subject store = do
    connection store
    load_artifacts of_json (sort recent_first (about (subject_to_text x subject) store.tag_claims))

  unfoldable pub recent_tag_claims :
      (Bytes → Option TagClaimV1) → ℕ → Store → Result Error (List TagClaimV1)
  recent_tag_claims of_json limit store = do
    connection store
    load_artifacts of_json (take (min limit 1_000) (sort recent_first store.tag_claims))

  unfoldable pub highest_tag_claim_revision : PublisherId → Store → Result Error (Option ℕ)
  highest_tag_claim_revision issuer store = do
    connection store
    ok (max_revision (issued_by (publisher_text x issuer) store.tag_claims))

  unfoldable pub collection :
      (Bytes → Option CollectionV1) → ArtifactId → Store → Result Error (Option CollectionV1)
  collection of_json id store = do
    connection store
    load_artifact of_json (find bytes_eq CachedArtifact.id (id_to_text x id) store.collections)

  unfoldable pub collections_for :
      (Bytes → Option CollectionV1) → PublisherId → Store → Result Error (List CollectionV1)
  collections_for of_json issuer store = do
    connection store
    load_artifacts of_json
        (sort latest_first (issued_by (publisher_text x issuer) store.collections))

  unfoldable pub tombstones_for :
      (Bytes → Option TombstoneV1) → SubjectRef → Store → Result Error (List TombstoneV1)
  tombstones_for of_json subject store = do
    connection store
    load_artifacts of_json (sort recent_first (about (subject_to_text x subject) store.tombstones))

  unfoldable pub moderation_decisions_for :
      (Bytes → Option ModerationDecisionV1)
      → SubjectRef
      → Store
      → Result Error (List ModerationDecisionV1)
  moderation_decisions_for of_json subject store = do
    connection store
    load_artifacts of_json
        (sort recent_first (about (subject_to_text x subject) store.moderation_decisions))

  unfoldable pub blocklist :
      (Bytes → Option BlocklistV1) → ArtifactId → Store → Result Error (Option BlocklistV1)
  blocklist of_json id store = do
    connection store
    load_artifact of_json (find bytes_eq CachedArtifact.id (id_to_text x id) store.blocklists)

  unfoldable pub blocklists_for :
      (Bytes → Option BlocklistV1) → PublisherId → Store → Result Error (List BlocklistV1)
  blocklists_for of_json issuer store = do
    connection store
    load_artifacts of_json
        (sort latest_first (issued_by (publisher_text x issuer) store.blocklists))
