-- ===== src/Store/Migrate/Reaches.antt =====
-- A database of any earlier version is brought to the current one.
use pubky_swarm.Base.{ℕ, zero, suc, ◌≤◌, ◌≡◌, refl, true, some, List, [], ◌∷◌, ◌++◌, arith, All}
use pubky_swarm.Base.Bytes.{Bytes, codes, bytes_eq}
use pubky_swarm.Base.Int.{pos}
use pubky_swarm.Base.Result.{ok}
use pubky_swarm.Store.{SourceRow, Store}
use pubky_swarm.Store.Table.{has}
use pubky_swarm.Store.Sources.Presets.{
  BuiltInRssPreset, built_in_rss_presets, ensure_presets, ensure_presets-All, ensure_presets_again,
  SameCaches, ensure_presets-SameCaches,
}
use pubky_swarm.Store.Migrate.{
  Database, create_tables, v1_tables, v2_tables, migrate_v1, migrate_v2, migrate_v3, migrate_v4,
  migrate_v5, upgrade, migrate, first_source, first_settings,
}

-- The tables that a database of a version has.
unfoldable pub tables_at : ℕ → List Bytes
tables_at zero = []
tables_at (suc zero) = v1_tables
tables_at (suc (suc zero)) = v1_tables ++ v2_tables
tables_at (suc (suc (suc zero))) = v1_tables ++ (v2_tables ++ (codes "catalog_sources" ∷ []))
tables_at _ = v1_tables ++ (v2_tables ++ (codes "catalog_sources" ∷ codes "client_settings" ∷ []))

unfoldable pub at_version : ℕ → Store → Database
at_version n s = record { user_version = pos n; tables = tables_at n; rows = s }

-- What the steps after a version insert.
upgraded : ℕ → Store → Store
upgraded zero s = record s {
  catalog_sources = first_source ∷ [];
  last_source = 1;
  client_settings = some first_settings;
}
upgraded (suc zero) s = record s {
  catalog_sources = first_source ∷ [];
  last_source = 1;
  client_settings = some first_settings;
}
upgraded (suc (suc zero)) s = record s {
  catalog_sources = first_source ∷ [];
  last_source = 1;
  client_settings = some first_settings;
}
upgraded (suc (suc (suc zero))) s = record s { client_settings = some first_settings }
upgraded _ s = s

migrate-at :
    (n : ℕ) (s : Store)
    → n ≤ 5
    → migrate (at_version n s)
      ≡ ok (at_version 5 (ensure_presets built_in_rss_presets (upgraded n s)))
unfolding migrate at_version tables_at upgraded upgrade create_tables v1_tables v2_tables migrate_v1
    migrate_v2 migrate_v3 migrate_v4 migrate_v5 bytes_eq
migrate-at zero s h = refl
migrate-at (suc zero) s h = refl
migrate-at (suc (suc zero)) s h = refl
migrate-at (suc (suc (suc zero))) s h = refl
migrate-at (suc (suc (suc (suc zero)))) s h = refl
migrate-at (suc (suc (suc (suc (suc zero))))) s h = refl
migrate-at (suc (suc (suc (suc (suc (suc n)))))) s h = absurd (omega arith)

upgraded-SameCaches : (n : ℕ) (s : Store) → SameCaches s (upgraded n s)
unfolding upgraded
upgraded-SameCaches zero s = (refl, refl, refl, refl)
upgraded-SameCaches (suc zero) s = (refl, refl, refl, refl)
upgraded-SameCaches (suc (suc zero)) s = (refl, refl, refl, refl)
upgraded-SameCaches (suc (suc (suc zero))) s = (refl, refl, refl, refl)
upgraded-SameCaches (suc (suc (suc (suc n)))) s = (refl, refl, refl, refl)

-- What a database of a version holds after the migration.
pub migrated : ℕ → Store → Store
unfolding upgraded
migrated n s = ensure_presets built_in_rss_presets (upgraded n s)

-- A database with the tables of any version from 0, an empty file, to 5 is brought to version 5:
-- it then has all tables and a source for every built-in preset, its follows, cached releases,
-- cursors and authority sequences are what they were, and to migrate it again changes nothing.
pub migrate-reaches :
    (n : ℕ) (s : Store)
    → n ≤ 5
    → (migrate (at_version n s) ≡ ok (at_version 5 (migrated n s)))
      × All
          (λ (p : BuiltInRssPreset).
            has bytes_eq SourceRow.endpoint p.endpoint (migrated n s).catalog_sources ≡ true)
          built_in_rss_presets
      × SameCaches s (migrated n s)
      × (migrate (at_version 5 (migrated n s)) ≡ ok (at_version 5 (migrated n s)))
unfolding upgraded migrated
migrate-reaches n s h =
    let all = ensure_presets-All built_in_rss_presets (upgraded n s) in
    let (a, b, c, d) = upgraded-SameCaches n s in
    let (e, f, g, i) = ensure_presets-SameCaches built_in_rss_presets (upgraded n s) in
    (
      migrate-at n s h,
      all,
      (cc (a, e), cc (b, f), cc (c, g), cc (d, i)),
      cc (
        ensure_presets_again built_in_rss_presets (migrated n s) all,
        migrate-at 5 (migrated n s) (omega arith),
      ),
    )
