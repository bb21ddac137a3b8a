-- ===== src/Store/Authority.antt =====
-- crates/swarm-store/src/catalog.rs: authority sequences and blocklist subscriptions.
pub mod Highest
use pubky_swarm.Base.{
  ℕ, ◌≡◌, Bool, true, false, not, ◌&&◌, ◌||◌, Option, none, some, List, [], ◌∷◌, ◌++◌, map, ltb,
  leb, ◌==◌, if◌then◌else◌, take, min, any,
}
use pubky_swarm.Base.Bytes.{Bytes, bytes_eq, bytes_lt}
use pubky_swarm.Base.Result.{Result, ok, err, ◌>>=◌, ◌>>◌, guard, ok_or, map_err}
use pubky_swarm.Base.Sort.{sort}
use pubky_swarm.Protocol.Crates.{Crates}
use pubky_swarm.Protocol.Ids.{PublisherId}
use pubky_swarm.Protocol.Subject.{CanonicalUri, canonical_uri_new, SubjectRef, subject_to_text}
use pubky_swarm.Protocol.Artifact.{ArtifactId, id_to_text}
use pubky_swarm.Protocol.Artifact.Claim.{TagClaimV1}
use pubky_swarm.Protocol.Artifact.Collection.{CollectionV1}
use pubky_swarm.Protocol.Artifact.Tombstone.{TombstoneV1}
use pubky_swarm.Protocol.Artifact.Moderation.{ModerationDecisionV1}
use pubky_swarm.Protocol.Artifact.Blocklist.{BlocklistV1}
use pubky_swarm.Store.{
  Libraries, CachedArtifact, AuthoritySequence, Subscription, Store, connection, bind, clock,
  check_positive,
}
use pubky_swarm.Store.Failures.{Error, protocol, json, invalid_authority_sequence}
use pubky_swarm.Store.Follows.{publisher_text, parse_publisher, parse_each}
use pubky_swarm.Store.Table.{has, find, insert_new, upsert, keep, without}

highest_of : Option AuthoritySequence → Option ℕ
highest_of none = none
highest_of (some row) = some row.highest_sequence

-- Whether the statement of `record_authority_sequence` changes a row: there is none, or the
-- `WHERE` of the update holds.
unfoldable pub advances : Option ℕ → ℕ → Bool
advances none sequence = true
advances (some highest) sequence = ltb highest sequence

module _ (x : Crates) where
  unfoldable pub highest_authority_sequence : PublisherId → Store → Result Error (Option ℕ)
  unfolding highest_of
  highest_authority_sequence authority store = do
    connection store
    ok (
        highest_of (
          find bytes_eq AuthoritySequence.authority (publisher_text x authority)
            store.authority_sequences))

module _ (x : Crates) (lib : Libraries) where
  unfoldable pub record_authority_sequence : PublisherId → ℕ → Store → Result Error (Bool × Store)
  unfolding highest_of
  record_authority_sequence authority sequence store = do
    guard (not (sequence == 0)) invalid_authority_sequence
    connection store
    highest_sequence ← bind lib sequence
    let row : AuthoritySequence = record {
      authority = publisher_text x authority;
      highest_sequence = highest_sequence;
    }
    let highest =
        highest_of
          (find bytes_eq AuthoritySequence.authority row.authority store.authority_sequences)
    let rows = upsert bytes_eq AuthoritySequence.authority row store.authority_sequences
    ok (
        if advances highest highest_sequence
        then (true, record store { authority_sequences = rows })
        else (false, store))

-- `UNIQUE (issuer, source_uri)`.
unfoldable pub same_subscription : Bytes × Bytes → Bytes × Bytes → Bool
same_subscription a b = bytes_eq a.0 b.0 && bytes_eq a.1 b.1

unfoldable pub subscription_key : Subscription → Bytes × Bytes
subscription_key row = (row.issuer, row.source_uri)

pub record BlocklistSubscription : Type 0 where
  pub issuer : PublisherId
  pub source_uri : CanonicalUri
  pub added_at : ℕ

module _ (x : Crates) (lib : Libraries) where
  unfoldable pub subscribe_blocklist :
      Option ℕ → PublisherId → CanonicalUri → Store → Result Error Store
  subscribe_blocklist now issuer source_uri store = do
    connection store
    added_at ← clock lib now
    check_positive added_at
    let row : Subscription = record {
      issuer = publisher_text x issuer;
      source_uri = source_uri.text;
      added_at = added_at;
    }
    ok (record store {
      blocklist_subscriptions =
          insert_new same_subscription subscription_key row store.blocklist_subscriptions;
    })

module _ (x : Crates) where
  unfoldable pub unsubscribe_blocklist : PublisherId → CanonicalUri → Store → Result Error Store
  unsubscribe_blocklist issuer source_uri store = do
    connection store
    ok (record store {
      blocklist_subscriptions =
          without same_subscription subscription_key (publisher_text x issuer, source_uri.text)
            store.blocklist_subscriptions;
    })

  unfoldable pub parse_subscription : Subscription → Result Error BlocklistSubscription
  parse_subscription row = do
    issuer ← parse_publisher x row.issuer
    source_uri ← map_err protocol (canonical_uri_new x row.source_uri)
    ok (record { issuer = issuer; source_uri = source_uri; added_at = row.added_at })

  -- The `collect` over the rows.
  unfoldable pub parse_subscriptions : List Subscription → Result Error (List BlocklistSubscription)
  parse_subscriptions [] = ok []
  parse_subscriptions (row ∷ rows) = do
    first ← parse_subscription row
    rest ← parse_subscriptions rows
    ok (first ∷ rest)

  unfoldable pub blocklist_subscriptions : Store → Result Error (List BlocklistSubscription)
  blocklist_subscriptions store = do
    connection store
    parse_subscriptions store.blocklist_subscriptions
