-- ===== src/Tests/Store.antt =====
-- The theorems on the local store, at an empty store and one with a built-in source.
use pubky_swarm.Base.Text.{trim, trim_start, utf8_length}
use pubky_swarm.Base.Utf8.{is_control, is_whitespace}
use pubky_swarm.Store.{bind, check_positive, connection}
use pubky_swarm.Store.Catalog.{insert_artifact, row_of}
use pubky_swarm.Store.Follows.{publisher_text}
use pubky_swarm.Store.Settings.{
  check_between, dir_length, normalized_dir, normalized_limit, validate_dir, validate_limit,
  validate_port,
}
use pubky_swarm.Store.Table.{find, insert_new}
use pubky_swarm.Base.{
  ◌≡◌, refl, true, false, Option, none, some, List, [], ◌∷◌, All, leb, arith, if◌then◌else◌,
}
use pubky_swarm.Base.Bytes.{Bytes, codes, bytes_eq}
use pubky_swarm.Base.Result.{ok}
use pubky_swarm.CatalogClient.{Web, rss}
use pubky_swarm.Protocol.Artifact.{id_to_text}
use pubky_swarm.Protocol.Artifact.Collection.{CollectionV1}
use pubky_swarm.Store.{Libraries, CachedArtifact, SourceRow, Store}
use pubky_swarm.Store.Table.{has}
use pubky_swarm.Store.Follows.Consistent.{
  Operation, follows, unfollows, moves, IsConsistent, run-IsConsistent,
}
use pubky_swarm.Store.Follows.Consistent as Follows
use pubky_swarm.Store.Authority.{highest_authority_sequence}
use pubky_swarm.Store.Authority.Highest.{record_all, greatest, highest-record_all}
use pubky_swarm.Store.Catalog.{cache_collection, collection}
use pubky_swarm.Store.Catalog.Loaded.{collection-cache_collection}
use pubky_swarm.Store.Settings.{
  ClientSettings, validate, normalized, client_settings, set_client_settings,
}
use pubky_swarm.Store.Settings.Saved.{client_settings-set_client_settings}
use pubky_swarm.Store.Sources.Kept.{built_ins}
use pubky_swarm.Store.Sources.Invariant.{adds, enables, removes, IsSound, run-IsSound}
use pubky_swarm.Store.Sources.Invariant as Sources
use pubky_swarm.Store.Sources.Presets.{BuiltInRssPreset, built_in_rss_presets, SameCaches}
use pubky_swarm.Store.Migrate.{migrate, first_source}
use pubky_swarm.Store.Migrate.Reaches.{at_version, migrated, migrate-reaches}
use pubky_swarm.Tests.Hex.{crates, toy_url}
use pubky_swarm.Tests.Sample.{publisher}
use pubky_swarm.Tests.Artifact.{maps}

abbrev libraries : Libraries
libraries = record {
  fits = λ v. leb v 9_223_372_036_854_775_807;
  release_json = λ _. [];
  release_of_json = λ _. none;
}

abbrev web : Web
web = record {
  parse = λ _. some (record { url = toy_url; host = some (codes "t") });
  ip_is_loopback = λ _. none;
}

abbrev empty : Store
empty = record {
  poisoned = false;
  followed_publishers = [];
  release_cache = [];
  event_cursors = [];
  tag_claims = [];
  collections = [];
  tombstones = [];
  moderation_decisions = [];
  blocklists = [];
  authority_sequences = [];
  blocklist_subscriptions = [];
  catalog_sources = [];
  last_source = 0;
  client_settings = none;
}

empty-IsConsistent : IsConsistent empty
empty-IsConsistent = record {
  follows_distinct = tt;
  cursors_distinct = tt;
  releases_distinct = tt;
  cursors_followed = tt;
}

abbrev calls : List Operation
calls =
    follows (some 5) publisher ∷ moves publisher 7 ∷ unfollows publisher ∷ moves publisher 8 ∷ []

run-IsConsistent_example : IsConsistent (Follows.run crates libraries calls empty)
run-IsConsistent_example = run-IsConsistent crates libraries calls empty empty-IsConsistent

highest_empty : highest_authority_sequence crates publisher empty ≡ ok none
unfolding highest_authority_sequence connection find
highest_empty = refl

highest-record_all_example :
    highest_authority_sequence crates publisher
      (record_all crates libraries ((publisher, 2) ∷ (publisher, 9) ∷ (publisher, 4) ∷ []) empty)
    ≡ ok (
        greatest crates libraries publisher none
          ((publisher, 2) ∷ (publisher, 9) ∷ (publisher, 4) ∷ []))
highest-record_all_example =
    highest-record_all crates libraries publisher
      ((publisher, 2) ∷ (publisher, 9) ∷ (publisher, 4) ∷ []) empty none highest_empty

abbrev with_source : Store
with_source = record empty { catalog_sources = first_source ∷ []; last_source = 1 }

with_source-IsSound : IsSound with_source
unfolding first_source
with_source-IsSound = record {
  bounded = omega arith;
  ids_distinct = (tt, tt);
  ids_given = (omega arith, tt);
  endpoints_distinct = (tt, tt);
}

run-IsSound_example :
    IsSound (
      Sources.run web libraries
        (adds (some 5) (codes "Mine") rss (codes "https://t/") false
          ∷ removes 1
          ∷ enables 1 false
          ∷ [])
        with_source)
    × (built_ins
          (Sources.run web libraries
            (adds (some 5) (codes "Mine") rss (codes "https://t/") false
              ∷ removes 1
              ∷ enables 1 false
              ∷ [])
            with_source).catalog_sources
        ≡ built_ins with_source.catalog_sources)
run-IsSound_example =
    run-IsSound web libraries
      (adds (some 5) (codes "Mine") rss (codes "https://t/") false
        ∷ removes 1
        ∷ enables 1 false
        ∷ [])
      with_source with_source-IsSound

migrate-reaches_example :
    (migrate (at_version 2 empty) ≡ ok (at_version 5 (migrated 2 empty)))
    × All
        (λ (p : BuiltInRssPreset).
          has bytes_eq SourceRow.endpoint p.endpoint (migrated 2 empty).catalog_sources ≡ true)
        built_in_rss_presets
    × SameCaches empty (migrated 2 empty)
    × (migrate (at_version 5 (migrated 2 empty)) ≡ ok (at_version 5 (migrated 2 empty)))
migrate-reaches_example = migrate-reaches 2 empty (omega arith)

-- A stand-in for the JSON of the collection.
abbrev to_json : CollectionV1 → Bytes
to_json _ = codes "maps"

abbrev of_json : Bytes → Option CollectionV1
of_json _ = some maps

abbrev row : CachedArtifact
row = record {
  id = id_to_text crates maps.id;
  issuer = publisher.key;
  subject = [];
  created_at = 5;
  revision = 2;
  json = codes "maps";
}

abbrev with_maps : Store
with_maps = record empty { collections = row ∷ [] }

maps_cached : cache_collection crates libraries to_json maps empty ≡ ok with_maps
unfolding cache_collection connection insert_artifact bind row_of check_positive insert_new has
    publisher_text
maps_cached = refl

collection-cache_collection_example : collection crates of_json maps.id with_maps ≡ (
    if has bytes_eq CachedArtifact.id (id_to_text crates maps.id) empty.collections
    then collection crates of_json maps.id empty
    else if bytes_eq (id_to_text crates maps.id) (id_to_text crates maps.id)
    then ok (some maps)
    else ok none)
collection-cache_collection_example =
    collection-cache_collection crates libraries to_json of_json maps maps.id empty with_maps refl
      maps_cached

abbrev chosen : ClientSettings
chosen = record {
  download_dir = some (codes " /home/me ");
  dht_enabled = true;
  upnp_enabled = false;
  download_limit_kbps = some 0;
  upload_limit_kbps = some 500;
  listen_port = some 6881;
}

abbrev saved : Store
saved = record empty {
  client_settings = some (record {
    download_dir = some (codes "/home/me");
    dht_enabled = true;
    upnp_enabled = false;
    download_limit_kbps = none;
    upload_limit_kbps = some 500;
    listen_port = some 6881;
  });
}

chosen_ok : set_client_settings chosen empty ≡ ok saved
unfolding set_client_settings validate validate_dir normalized normalized_dir trim trim_start
    is_whitespace utf8_length is_control validate_port validate_limit normalized_limit connection
    check_between dir_length
chosen_ok = refl

client_settings-set_client_settings_example :
    (client_settings saved ≡ ok (normalized chosen)) × (validate (normalized chosen) ≡ ok tt)
client_settings-set_client_settings_example =
    client_settings-set_client_settings chosen empty saved chosen_ok
