-- ===== src/Store/Catalog/Loaded.antt =====
-- A cached collection is loaded again, and caching never replaces what was cached under an id.
use pubky_swarm.Base.{◌≡◌, refl, false, Option, none, some, List, [], arith, if◌then◌else◌}
use pubky_swarm.Base.Bytes.{Bytes, bytes_eq, bytes_eq_iff}
use pubky_swarm.Base.Result.{ok, Ensures, Ensures->>=, Ensures-eq-ok}
use pubky_swarm.Protocol.Crates.{Crates}
use pubky_swarm.Protocol.Artifact.{ArtifactId, id_to_text}
use pubky_swarm.Protocol.Artifact.Collection.{CollectionV1}
use pubky_swarm.Store.{Libraries, CachedArtifact, Store, connection, bind, check_positive}
use pubky_swarm.Store.Table.{has, find, insert_new}
use pubky_swarm.Store.Table.Laws.{find-insert_new}
use pubky_swarm.Store.Catalog.{insert_artifact, row_of, cache_collection, load_artifact, collection}

-- What an insertion leaves.
insert_artifact-Ensures :
    (lib : Libraries) (row : CachedArtifact) (rows : List CachedArtifact)
    → Ensures
        (λ after. after ≡ insert_new bytes_eq CachedArtifact.id row rows)
        (insert_artifact lib row rows)
unfolding insert_artifact
insert_artifact-Ensures lib row rows =
    let P : List CachedArtifact → Type 0 =
      λ after. after ≡ insert_new bytes_eq CachedArtifact.id row rows in
    Ensures->>= P (bind lib row.created_at) _ (λ _ _.
      Ensures->>= P (bind lib row.revision) _ (λ _ _.
        Ensures->>= P (check_positive row.created_at) _
          (λ _ _. Ensures->>= P (check_positive row.revision) _ (λ _ _. refl))))

not_poisoned : (s : Store) (u : Unit {0}) → connection s ≡ ok u → s.poisoned ≡ false
unfolding connection
not_poisoned s u e = ground arith

-- The row of a collection.
abbrev row_for : Crates → (CollectionV1 → Bytes) → CollectionV1 → CachedArtifact
row_for x to_json c = row_of c.id [] (to_json c) c.created_at c.revision x c.issuer

abbrev Cached : Crates → (CollectionV1 → Bytes) → CollectionV1 → Store → Store → Type 0
Cached x to_json c s next =
    (s.poisoned ≡ false)
    × (next.poisoned ≡ false)
    × (next.collections ≡ insert_new bytes_eq CachedArtifact.id (row_for x to_json c) s.collections)

cache_collection-Cached :
    (x : Crates) (lib : Libraries) (to_json : CollectionV1 → Bytes) (c : CollectionV1) (s : Store)
    → Ensures (Cached x to_json c s) (cache_collection x lib to_json c s)
unfolding cache_collection
cache_collection-Cached x lib to_json c s =
    Ensures->>= (Cached x to_json c s) (connection s) _ (λ u unlocked.
      Ensures->>= (Cached x to_json c s) (insert_artifact lib (row_for x to_json c) s.collections) _
        (λ rows inserted. (
          not_poisoned s u unlocked,
          not_poisoned s u unlocked,
          Ensures-eq-ok _ _ rows (insert_artifact-Ensures lib (row_for x to_json c) s.collections)
              inserted,
        )))

module _ (x : Crates) (lib : Libraries) (to_json : CollectionV1 → Bytes)
    (of_json : Bytes → Option CollectionV1) where
  load_row :
      (c : CollectionV1) (row : CachedArtifact) (id : Bytes) (rows : List CachedArtifact)
      → row.json ≡ to_json c
      → of_json (to_json c) ≡ some c
      → load_artifact of_json
          (find bytes_eq CachedArtifact.id id (insert_new bytes_eq CachedArtifact.id row rows))
        ≡ (if has bytes_eq CachedArtifact.id id rows
            then load_artifact of_json (find bytes_eq CachedArtifact.id id rows)
            else if bytes_eq row.id id
            then ok (some c)
            else ok none)
  unfolding load_artifact
  load_row c row id rows j k =
      rw (find-insert_new bytes_eq CachedArtifact.id bytes_eq_iff id rows row)
        (ground (arith, j, k))

  -- After a collection is cached, its id loads it, when nothing was cached under that id before;
  -- an id that was cached before still loads what it did, and every other id loads nothing.
  -- Reading the JSON of the collection gives it back.
  pub collection-cache_collection :
      (c : CollectionV1) (id : ArtifactId) (s next : Store)
      → of_json (to_json c) ≡ some c
      → cache_collection x lib to_json c s ≡ ok next
      → collection x of_json id next ≡ (
          if has bytes_eq CachedArtifact.id (id_to_text x id) s.collections
          then collection x of_json id s
          else if bytes_eq (id_to_text x c.id) (id_to_text x id)
          then ok (some c)
          else ok none)
  unfolding collection connection row_of
  collection-cache_collection c id s next j e =
      let (open_before, open_after, rows) =
        Ensures-eq-ok (Cached x to_json c s) _ next (cache_collection-Cached x lib to_json c s) e in
      rw (open_after, open_before, rows)
        (load_row c (row_for x to_json c) (id_to_text x id) s.collections refl j)
