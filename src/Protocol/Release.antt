-- ===== src/Protocol/Release.antt =====
-- crates/swarm-protocol/src/lib.rs: `ReleaseV1` and its checks, and `validate_tracker_url` of
-- crates/swarm-protocol/src/catalog.rs.
pub mod Torrent
pub mod Valid
pub mod Exact
use Prim.Native.String.{String}
use pubky_swarm.Base.{
  ℕ, ◌+◌, ◌≡◌, Bool, true, false, not, ◌&&◌, ◌||◌, Option, none, some, List, [], ◌∷◌, ◌++◌, map,
  any, ltb, leb, ◌==◌, if◌then◌else◌, length,
}
use pubky_swarm.Base.Bytes.{Bytes, codes, u64_max, bytes_eq, bytes_lt, starts_with, lower_byte}
use pubky_swarm.Base.Result.{Result, ok, err, ◌>>=◌, ◌>>◌, guard, ok_or}
use pubky_swarm.Base.Sort.{sort}
use pubky_swarm.Protocol.Crates.{Crates, Url}
use pubky_swarm.Protocol.Error.{
  Error, invalid_field, invalid_release_id, size_mismatch, says, foreign,
}
use pubky_swarm.Protocol.Ids.{
  InfoHashV1, PublisherId, ReleaseId, release_id_derive, release_id_to_hex,
}
use pubky_swarm.Protocol.Portable.{validate_text, validate_portable_path, validate_tags}

abbrev pub release_version : ℕ
release_version = 1

unfoldable pub release_schema : Bytes
release_schema = codes "pubky.swarm/release"

unfoldable pub releases_path : Bytes
releases_path = codes "/pub/pubky.swarm/v1/releases/"

pub record ReleaseFile : Type 0 where
  pub path : Bytes
  pub size : ℕ

pub record TorrentV1 : Type 0 where
  pub info_hash : InfoHashV1
  pub size : ℕ
  pub files : List ReleaseFile
  pub trackers : List Bytes

-- `ReleaseWire` has the same fields.
pub record ReleaseV1 : Type 0 where
  pub schema : Bytes
  pub version : ℕ
  pub id : ReleaseId
  pub publisher : PublisherId
  pub created_at : ℕ
  pub title : Bytes
  pub description : Bytes
  pub torrent : TorrentV1
  pub tags : List Bytes

is_one_of : List Bytes → Bytes → Bool
is_one_of names name = any (bytes_eq name) names

is_some : Option Bytes → Bool
is_some none = false
is_some (some _) = true

secret_keys : List Bytes
secret_keys =
    codes "api_key"
    ∷ codes "apikey"
    ∷ codes "auth"
    ∷ codes "authorization"
    ∷ codes "key"
    ∷ codes "passkey"
    ∷ codes "secret"
    ∷ codes "token"
    ∷ []

-- The test that refuses a parsed tracker.
unfoldable pub is_refused_tracker : Url → Bool
unfolding is_one_of is_some secret_keys
is_refused_tracker url =
    not (is_one_of (codes "http" ∷ codes "https" ∷ codes "udp" ∷ []) url.scheme)
    || not (bytes_eq url.username [])
    || is_some url.password
    || is_some url.fragment
    || any (λ key. is_one_of secret_keys (map lower_byte key)) url.query_keys

module _ (x : Crates) where
  unfoldable pub validate_tracker_url : Bytes → Result Error (Unit {0})
  validate_tracker_url value = do
    guard (leb (length value) 2048) (invalid_field "tracker" (says "URL exceeds 2048 bytes"))
    url ← ok_or (x.parse_url value) (invalid_field "tracker" foreign)
    guard (not (is_refused_tracker url)) (
        invalid_field "tracker"
          (says "only credential-free HTTP(S)/UDP tracker URLs without fragments are allowed"))

  -- The loop over the trackers.
  unfoldable pub validate_each : List Bytes → Result Error (Unit {0})
  validate_each [] = ok tt
  validate_each (tracker ∷ trackers) = validate_tracker_url tracker >> validate_each trackers

  unfoldable pub validate_trackers : List Bytes → Result Error (Unit {0})
  validate_trackers trackers = do
    guard (leb (length trackers) 16) (invalid_field "torrent.trackers" (says "maximum is 16"))
    validate_each trackers

-- The loop over the files, with `total`; the paths that it collects are those of the files.
unfoldable pub sum_files : ℕ → List ReleaseFile → Result Error ℕ
sum_files total [] = ok total
sum_files total (file ∷ files) =
    validate_portable_path file.path
    >> (guard (leb (total + file.size) u64_max)
          (invalid_field "torrent.files" (says "file sizes overflow u64"))
        >> sum_files (total + file.size) files)

-- The loop over `paths.windows(2)`.
unfoldable pub check_neighbours : List Bytes → Result Error (Unit {0})
check_neighbours [] = ok tt
check_neighbours (a ∷ []) = ok tt
check_neighbours (a ∷ b ∷ paths) =
    guard (not (bytes_eq a b || starts_with (a ++ codes "/") b))
      (invalid_field "torrent.files" (says "duplicate or file/directory-colliding paths"))
    >> check_neighbours (b ∷ paths)

module _ (x : Crates) where
  unfoldable pub validate_torrent : TorrentV1 → Result Error (Unit {0})
  validate_torrent torrent = do
    guard (not (torrent.size == 0)) (invalid_field "torrent.size" (says "must be positive"))
    guard (not (length torrent.files == 0 || ltb 10_000 (length torrent.files)))
        (invalid_field "torrent.files" (says "expected 1..=10000 files"))
    total ← sum_files 0 torrent.files
    check_neighbours (sort bytes_lt (map ReleaseFile.path torrent.files))
    guard (total == torrent.size) (size_mismatch total torrent.size)
    validate_trackers x torrent.trackers

  unfoldable pub validate : ReleaseV1 → Result Error (Unit {0})
  validate release = do
    guard (bytes_eq release.schema release_schema)
        (invalid_field "schema" (says "unsupported schema"))
    guard (release.version == release_version)
        (invalid_field "version" (says "unsupported version"))
    validate_text "title" release.title 1 200
    validate_text "description" release.description 0 4000
    guard (not (release.created_at == 0)) (invalid_field "created_at" (says "must be positive"))
    validate_torrent release.torrent
    validate_tags release.tags

  unfoldable pub new :
      PublisherId → ℕ → Bytes → Bytes → TorrentV1 → List Bytes → Result Error ReleaseV1
  new publisher created_at title description torrent tags =
      let release : ReleaseV1 = record {
        schema = release_schema;
        version = release_version;
        id = release_id_derive x publisher created_at torrent.info_hash;
        publisher = publisher;
        created_at = created_at;
        title = title;
        description = description;
        torrent = torrent;
        tags = tags;
      } in
      do validate release; ok release

  unfoldable pub try_from_wire : ReleaseV1 → Result Error ReleaseV1
  try_from_wire wire = do
    validate wire
    guard
        (bytes_eq wire.id.bytes
          (release_id_derive x wire.publisher wire.created_at wire.torrent.info_hash).bytes)
        (invalid_release_id (says "id does not match publisher, timestamp, and infohash"))
    ok wire

  unfoldable pub storage_path : ReleaseV1 → Bytes
  storage_path release = releases_path ++ (release_id_to_hex x release.id ++ codes ".json")
