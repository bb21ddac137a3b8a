-- ===== src/Store.antt =====
-- crates/swarm-store: the local cache. A table is the list of its rows in the order in which they
-- were inserted, which is the order of an AUTOINCREMENT key. An operation returns the store after
-- it; one that fails leaves the store as it was, since each is one statement or one transaction.
-- That the file can be read and written is assumed.
pub mod Table
pub mod Failures
pub mod Follows
pub mod Catalog
pub mod Authority
pub mod Sources
pub mod Settings
pub mod Migrate
use pubky_swarm.Base.{ℕ, Bool, true, false, not, Option, none, some, List, [], ltb, if◌then◌else◌}
use pubky_swarm.Base.Bytes.{Bytes}
use pubky_swarm.Base.Text.{Text}
use pubky_swarm.Base.Result.{Result, ok, err, ◌>>=◌, ◌>>◌, guard, ok_or}
use pubky_swarm.Protocol.Release.{ReleaseV1}
use pubky_swarm.Store.Failures.{
  Error, sqlite, out_of_range, check_failed, lock_poisoned, invalid_system_time,
}

-- What the store calls of `rusqlite` and `serde_json`.
pub record Libraries : Type 0 where
  -- Whether a `u64` is accepted as a parameter of a statement.
  pub fits : ℕ → Bool
  pub release_json : ReleaseV1 → Bytes
  pub release_of_json : Bytes → Option ReleaseV1

-- migrate_v1
pub record Follow : Type 0 where
  pub publisher : Bytes
  pub added_at : ℕ

pub record CachedRelease : Type 0 where
  pub publisher : Bytes
  pub release_id : Bytes
  pub created_at : ℕ
  pub release_json : Bytes
  pub validated_at : ℕ

pub record EventCursor : Type 0 where
  pub publisher : Bytes
  pub cursor : ℕ

-- migrate_v2: a row of one of the five tables of artifacts. Collections and blocklists have no
-- column `subject`, and leave it empty.
pub record CachedArtifact : Type 0 where
  pub id : Bytes
  pub issuer : Bytes
  pub subject : Bytes
  pub created_at : ℕ
  pub revision : ℕ
  pub json : Bytes

pub record AuthoritySequence : Type 0 where
  pub authority : Bytes
  pub highest_sequence : ℕ

pub record Subscription : Type 0 where
  pub issuer : Bytes
  pub source_uri : Bytes
  pub added_at : ℕ

-- migrate_v3
pub record SourceRow : Type 0 where
  pub source_id : ℕ
  pub name : Text
  pub kind : Bytes
  pub endpoint : Bytes
  pub enabled : Bool
  pub built_in : Bool
  pub requires_api_key : Bool
  pub added_at : ℕ

-- migrate_v4
pub record SettingsRow : Type 0 where
  pub download_dir : Option Text
  pub dht_enabled : Bool
  pub upnp_enabled : Bool
  pub download_limit_kbps : Option ℕ
  pub upload_limit_kbps : Option ℕ
  pub listen_port : Option ℕ

pub record Store : Type 0 where
  pub poisoned : Bool
  pub followed_publishers : List Follow
  pub release_cache : List CachedRelease
  pub event_cursors : List EventCursor
  pub tag_claims : List CachedArtifact
  pub collections : List CachedArtifact
  pub tombstones : List CachedArtifact
  pub moderation_decisions : List CachedArtifact
  pub blocklists : List CachedArtifact
  pub authority_sequences : List AuthoritySequence
  pub blocklist_subscriptions : List Subscription
  pub catalog_sources : List SourceRow
  -- The greatest `source_id` that was ever given.
  pub last_source : ℕ
  pub client_settings : Option SettingsRow

-- `self.connection()?`.
unfoldable pub connection : Store → Result Error (Unit {0})
connection store = guard (not store.poisoned) lock_poisoned

-- A `u64` as a parameter.
unfoldable pub bind : Libraries → ℕ → Result Error ℕ
bind lib value = if lib.fits value then ok value else err (sqlite out_of_range)

-- `unix_millis()?`, given what the clock shows, as a parameter of a column with the constraint
-- `CHECK (… > 0)`.
unfoldable pub clock : Libraries → Option ℕ → Result Error ℕ
unfolding bind
clock lib now = do millis ← ok_or now invalid_system_time; bind lib millis

unfoldable pub check_positive : ℕ → Result Error (Unit {0})
check_positive value = guard (ltb 0 value) (sqlite check_failed)
