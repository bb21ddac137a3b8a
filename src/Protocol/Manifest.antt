-- ===== src/Protocol/Manifest.antt =====
-- crates/swarm-protocol/src/lib.rs: `ManifestObjectV1` and `DatasetManifestV1`.
pub mod Codec
pub mod Order
pub mod RoundTrip
pub mod Canonical
pub mod Lookup
pub mod Verify
pub mod Collisions
use pubky_swarm.Base.{
  ℕ, zero, suc, ◌+◌, ◌-◌, ◌/◌, ◌<◌, ◌≡◌, Bool, true, false, not, Option, none, some, List, [], ◌∷◌,
  ◌++◌, ltb, leb, ◌==◌, if◌then◌else◌, length, get_elem?,
}
use pubky_swarm.Base.Bytes.{Bytes, codes, bytes_eq, bytes_lt, starts_with}
use pubky_swarm.Base.Result.{Result, ok, err, ◌>>=◌, ◌>>◌, guard, ok_or}
use pubky_swarm.Base.Sort.{sort}
use pubky_swarm.Protocol.Crates.{Crates}
use pubky_swarm.Protocol.Error.{
  Error, invalid_field, unknown_object, object_mismatch, says, maximum_objects,
}
use pubky_swarm.Protocol.Portable.{validate_portable_path}
use pubky_swarm.Protocol.Ids.{PublisherId, ObjectDigest, object_digest_of, object_digest_verify}

abbrev pub manifest_version : ℕ
manifest_version = 1

abbrev pub max_manifest_objects : ℕ
max_manifest_objects = 100_000

unfoldable pub manifest_schema : Bytes
manifest_schema = codes "pubky.swarm/dataset-manifest"

pub record ManifestObjectV1 : Type 0 where
  pub path : Bytes
  pub size : ℕ
  pub digest : ObjectDigest

unfoldable pub object_from_bytes : Crates → Bytes → Bytes → ManifestObjectV1
unfolding object_digest_of
object_from_bytes x path bytes = record {
  path = path;
  size = length bytes;
  digest = object_digest_of x bytes;
}

-- `ManifestWire` has the same fields.
pub record DatasetManifestV1 : Type 0 where
  pub schema : Bytes
  pub version : ℕ
  pub publisher : PublisherId
  pub created_at : ℕ
  pub objects : List ManifestObjectV1

-- The tests on an object's path against the previous one.
unfoldable pub follows : Option Bytes → Bytes → Result Error (Unit {0})
follows none path = ok tt
follows (some previous) path =
    if not (bytes_lt previous path)
    then err (invalid_field "objects" (says "objects must be sorted and unique by path"))
    else if starts_with (previous ++ codes "/") path
    then err (invalid_field "objects" (says "object path collides with a file used as a directory"))
    else ok tt

-- The loop of `validate`, with the previous path.
unfoldable pub objects_from : Option Bytes → List ManifestObjectV1 → Result Error (Unit {0})
objects_from previous [] = ok tt
objects_from previous (object ∷ objects) = do
  validate_portable_path object.path
  follows previous object.path
  objects_from (some object.path) objects

unfoldable pub validate : DatasetManifestV1 → Result Error (Unit {0})
validate m =
    if not (bytes_eq m.schema manifest_schema)
    then err (invalid_field "schema" (says "unsupported schema"))
    else if not (m.version == manifest_version)
    then err (invalid_field "version" (says "unsupported version"))
    else if m.created_at == 0
    then err (invalid_field "created_at" (says "must be positive"))
    else if ltb max_manifest_objects (length m.objects)
    then err (invalid_field "objects" (maximum_objects max_manifest_objects))
    else objects_from none m.objects

-- The order that `new` sorts by.
unfoldable pub path_lt : ManifestObjectV1 → ManifestObjectV1 → Bool
path_lt left right = bytes_lt left.path right.path

unfoldable pub new : PublisherId → ℕ → List ManifestObjectV1 → Result Error DatasetManifestV1
new publisher created_at objects =
    let manifest : DatasetManifestV1 = record {
      schema = manifest_schema;
      version = manifest_version;
      publisher = publisher;
      created_at = created_at;
      objects = sort path_lt objects;
    } in
    do validate manifest; ok manifest

unfoldable pub try_from_wire : DatasetManifestV1 → Result Error DatasetManifestV1
try_from_wire wire = do validate wire; ok wire

-- `binary_search_by` on the indices `lo .. hi`, with fuel for the rounds. The library leaves open
-- which of several equal elements is found; a valid manifest has no two.
unfoldable pub search_from : ℕ → List ManifestObjectV1 → Bytes → ℕ → ℕ → Option ManifestObjectV1
search_from zero objects path lo hi = none
search_from (suc fuel) objects path lo hi =
    let mid = lo + (hi - lo) / 2 in
    let right = search_from fuel objects path (mid + 1) hi in
    let left = search_from fuel objects path lo mid in
    if ltb lo hi
    then (elim (get_elem? objects mid) [
      | none ↦ none
      | some object ↦
          if bytes_lt object.path path
          then right
          else if bytes_lt path object.path
          then left
          else some object
    ])
    else none

unfoldable pub object : DatasetManifestV1 → Bytes → Option ManifestObjectV1
object m path = search_from (suc (length m.objects)) m.objects path 0 (length m.objects)

unfoldable pub verify_object :
    Crates → DatasetManifestV1 → Bytes → Bytes → Result Error ManifestObjectV1
unfolding object_digest_verify
verify_object x m path bytes = do
  o ← ok_or (object m path) (unknown_object path)
  guard (o.size == length bytes) (object_mismatch path "byte length does not match the manifest")
  guard (object_digest_verify x o.digest bytes)
      (object_mismatch path "BLAKE3 digest does not match the manifest")
  ok o
