-- ===== src/Store/Migrate.antt =====
-- crates/swarm-store/src/lib.rs: `migrate`. A database is its version, the names of its tables and
-- their rows. Of a migration that fails, the steps before it stay committed, which the result does
-- not show.
pub mod Reaches
use pubky_swarm.Base.{
  ℕ, ◌+◌, ◌≡◌, Bool, true, false, not, Option, none, some, List, [], ◌∷◌, ◌++◌, if◌then◌else◌, any,
}
use pubky_swarm.Base.Bytes.{Bytes, codes, bytes_eq}
use pubky_swarm.Base.Int.{ℤ, pos, eqb_ℤ, ltb_ℤ}
use pubky_swarm.Base.Result.{Result, ok, err, ◌>>=◌, ◌>>◌, guard}
use pubky_swarm.Store.{SourceRow, SettingsRow, Store}
use pubky_swarm.Store.Failures.{Error, sqlite, table_exists, unsupported_schema}
use pubky_swarm.Store.Sources.Presets.{built_in_rss_presets, ensure_presets}

pub record Database : Type 0 where
  pub user_version : ℤ
  pub tables : List Bytes
  pub rows : Store

abbrev pub current_schema_version : ℕ
current_schema_version = 5

-- `CREATE TABLE`.
unfoldable pub create_tables : List Bytes → List Bytes → Result Error (List Bytes)
create_tables [] tables = ok tables
create_tables (name ∷ names) tables = do
  guard (not (any (bytes_eq name) tables)) (sqlite table_exists)
  create_tables names (tables ++ name ∷ [])

unfoldable pub v1_tables : List Bytes
v1_tables = codes "followed_publishers" ∷ codes "release_cache" ∷ codes "event_cursors" ∷ []

unfoldable pub v2_tables : List Bytes
v2_tables =
    codes "tag_claims"
    ∷ codes "collections"
    ∷ codes "tombstones"
    ∷ codes "moderation_decisions"
    ∷ codes "blocklists"
    ∷ codes "authority_sequences"
    ∷ codes "blocklist_subscriptions"
    ∷ []

unfoldable pub migrate_v1 : Database → Result Error Database
migrate_v1 db = do
  tables ← create_tables v1_tables db.tables
  ok (record db { tables = tables; user_version = pos 1 })

unfoldable pub migrate_v2 : Database → Result Error Database
migrate_v2 db = do
  tables ← create_tables v2_tables db.tables
  ok (record db { tables = tables; user_version = pos 2 })

-- The table begins with one built-in source.
unfoldable pub first_source : SourceRow
first_source = record {
  source_id = 1;
  name = codes "Academic Torrents — Recent";
  kind = codes "rss";
  endpoint = codes "https://academictorrents.com/rss.xml";
  enabled = true;
  built_in = true;
  requires_api_key = false;
  added_at = 1;
}

unfoldable pub migrate_v3 : Database → Result Error Database
migrate_v3 db = do
  tables ← create_tables (codes "catalog_sources" ∷ []) db.tables
  let rows : Store = record db.rows { catalog_sources = first_source ∷ []; last_source = 1 }
  ok (record db { tables = tables; user_version = pos 3; rows = rows })

unfoldable pub first_settings : SettingsRow
first_settings = record {
  download_dir = none;
  dht_enabled = true;
  upnp_enabled = true;
  download_limit_kbps = none;
  upload_limit_kbps = none;
  listen_port = none;
}

unfoldable pub migrate_v4 : Database → Result Error Database
migrate_v4 db = do
  tables ← create_tables (codes "client_settings" ∷ []) db.tables
  let rows : Store = record db.rows { client_settings = some first_settings }
  ok (record db { tables = tables; user_version = pos 4; rows = rows })

unfoldable pub migrate_v5 : Database → Result Error Database
migrate_v5 db = ok (record db { user_version = pos 5 })

-- `if version == from { step(connection)?; version = to; }`.
unfoldable pub upgrade :
    ℕ → ℕ → (Database → Result Error Database) → ℤ × Database → Result Error (ℤ × Database)
upgrade from to step (version, db) =
    if eqb_ℤ version (pos from) then (do db ← step db; ok (pos to, db)) else ok (version, db)

unfoldable pub migrate : Database → Result Error Database
migrate db = do
  guard (not (ltb_ℤ (pos current_schema_version) db.user_version))
      (unsupported_schema db.user_version current_schema_version)
  state ← upgrade 0 1 migrate_v1 (db.user_version, db)
  state ← upgrade 1 2 migrate_v2 state
  state ← upgrade 2 3 migrate_v3 state
  state ← upgrade 3 4 migrate_v4 state
  (_, db) ← upgrade 4 5 migrate_v5 state
  ok (record db { rows = ensure_presets built_in_rss_presets db.rows })
