-- ===== src/Store/Follows.antt =====
-- crates/swarm-store/src/lib.rs: followed publishers, cached releases and event cursors.
pub mod Consistent
use pubky_swarm.Base.{
  ℕ, ◌≡◌, Bool, true, false, not, ◌&&◌, ◌||◌, Option, none, some, List, [], ◌∷◌, ◌++◌, map, ltb,
  leb, ◌==◌, if◌then◌else◌, take, min,
}
use pubky_swarm.Base.Bytes.{Bytes, bytes_eq, bytes_lt}
use pubky_swarm.Base.Result.{Result, ok, err, ◌>>=◌, ◌>>◌, guard, ok_or}
use pubky_swarm.Base.Sort.{sort}
use pubky_swarm.Protocol.Crates.{Crates}
use pubky_swarm.Protocol.Ids.{PublisherId, release_id_to_hex}
use pubky_swarm.Protocol.Release.{ReleaseV1}
use pubky_swarm.Store.{
  Libraries, Follow, CachedRelease, EventCursor, Store, connection, bind, clock, check_positive,
}
use pubky_swarm.Store.Failures.{Error, sqlite, foreign_key_failed, json, invalid_publisher}
use pubky_swarm.Store.Table.{has, find, without, insert_new, upsert, keep}

-- `publisher.to_string()` and its parser.
unfoldable pub publisher_text : Crates → PublisherId → Bytes
publisher_text x publisher = x.key_text publisher.key

unfoldable pub parse_publisher : Crates → Bytes → Result Error PublisherId
parse_publisher x value = do
  key ← ok_or (x.key_of_text value) invalid_publisher
  ok (record { key = key })

abbrev pub ReleaseKey : Type 0
ReleaseKey = Bytes × Bytes

unfoldable pub release_key : CachedRelease → ReleaseKey
release_key row = (row.publisher, row.release_id)

unfoldable pub release_key_eq : ReleaseKey → ReleaseKey → Bool
release_key_eq a b = bytes_eq a.0 b.0 && bytes_eq a.1 b.1

-- `ORDER BY created_at DESC, release_id ASC` within a publisher.
unfoldable pub newest_first : CachedRelease → CachedRelease → Bool
newest_first a b =
    ltb b.created_at a.created_at
    || (a.created_at == b.created_at && bytes_lt a.release_id b.release_id)

-- `ORDER BY created_at DESC, publisher ASC, release_id ASC`.
unfoldable pub newest_of_all : CachedRelease → CachedRelease → Bool
newest_of_all a b =
    ltb b.created_at a.created_at
    || (a.created_at == b.created_at
        && (bytes_lt a.publisher b.publisher
            || (bytes_eq a.publisher b.publisher && bytes_lt a.release_id b.release_id)))

-- The `collect` over parsed rows.
unfoldable pub parse_each :
    {A : Type 0} → (Bytes → Result Error A) → List Bytes → Result Error (List A)
parse_each parse [] = ok []
parse_each parse (value ∷ values) = do
  first ← parse value
  rest ← parse_each parse values
  ok (first ∷ rest)

unfoldable pub parse_release : Libraries → Bytes → Result Error ReleaseV1
parse_release lib value = ok_or (lib.release_of_json value) json

module _ (x : Crates) (lib : Libraries) where
  unfoldable pub follow : Option ℕ → PublisherId → Store → Result Error Store
  follow now publisher store = do
    connection store
    added_at ← clock lib now
    check_positive added_at
    let row : Follow = record { publisher = publisher_text x publisher; added_at = added_at }
    ok (record store {
      followed_publishers = insert_new bytes_eq Follow.publisher row store.followed_publishers;
    })

module _ (x : Crates) where
  -- The cursor goes with the follow, by `ON DELETE CASCADE` and by the second statement.
  unfoldable pub unfollow : PublisherId → Store → Result Error Store
  unfollow publisher store = do
    connection store
    let text = publisher_text x publisher
    let followed = without bytes_eq Follow.publisher text store.followed_publishers
    let cursors = without bytes_eq EventCursor.publisher text store.event_cursors
    ok (record store {
      followed_publishers = followed;
      event_cursors = without bytes_eq EventCursor.publisher text cursors;
    })

  unfoldable pub followed_publishers : Store → Result Error (List PublisherId)
  followed_publishers store = do
    connection store
    parse_each (parse_publisher x) (map Follow.publisher store.followed_publishers)

module _ (x : Crates) (lib : Libraries) where
  unfoldable pub cache_release : Option ℕ → ReleaseV1 → Store → Result Error Store
  cache_release now release store = do
    connection store
    created_at ← bind lib release.created_at
    validated_at ← clock lib now
    check_positive created_at
    check_positive validated_at
    let row : CachedRelease = record {
      publisher = publisher_text x release.publisher;
      release_id = release_id_to_hex x release.id;
      created_at = created_at;
      release_json = lib.release_json release;
      validated_at = validated_at;
    }
    ok (record store { release_cache = upsert release_key_eq release_key row store.release_cache })

  unfoldable pub releases_for : PublisherId → Store → Result Error (List ReleaseV1)
  releases_for publisher store = do
    connection store
    let rows =
        keep (λ (row : CachedRelease). bytes_eq row.publisher (publisher_text x publisher))
          store.release_cache
    parse_each (parse_release lib) (map CachedRelease.release_json (sort newest_first rows))

  unfoldable pub all_releases : ℕ → Store → Result Error (List ReleaseV1)
  all_releases limit store = do
    connection store
    let rows = take (min limit 10_000) (sort newest_of_all store.release_cache)
    parse_each (parse_release lib) (map CachedRelease.release_json rows)

  -- The row refers to a followed publisher.
  unfoldable pub set_cursor : PublisherId → ℕ → Store → Result Error Store
  set_cursor publisher cursor store = do
    connection store
    cursor ← bind lib cursor
    let text = publisher_text x publisher
    guard (has bytes_eq Follow.publisher text store.followed_publishers) (sqlite foreign_key_failed)
    let row : EventCursor = record { publisher = text; cursor = cursor }
    ok (record store {
      event_cursors = upsert bytes_eq EventCursor.publisher row store.event_cursors;
    })

cursor_of : Option EventCursor → Option ℕ
cursor_of none = none
cursor_of (some row) = some row.cursor

unfoldable pub cursor : Crates → PublisherId → Store → Result Error (Option ℕ)
unfolding cursor_of
cursor x publisher store = do
  connection store
  ok (
      cursor_of
        (find bytes_eq EventCursor.publisher (publisher_text x publisher) store.event_cursors))
