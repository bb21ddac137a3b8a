-- ===== src/Dataset/Snapshot.antt =====
-- crates/dataset-core/src/lib.rs: `Snapshot`.
pub mod Sound
use pubky_swarm.Base.{
  ℕ, ◌≡◌, Bool, true, false, not, Option, none, some, List, [], ◌∷◌, ◌==◌, if◌then◌else◌, length,
}
use pubky_swarm.Base.Bytes.{Bytes, starts_with}
use pubky_swarm.Base.Result.{Result, ok, err, ◌>>=◌, ◌>>◌, guard, ok_or}
use pubky_swarm.Protocol.Crates.{Crates}
use pubky_swarm.Protocol.Ids.{ManifestDigest, object_digest_verify}
use pubky_swarm.Protocol.Manifest.{ManifestObjectV1, DatasetManifestV1, object}
use pubky_swarm.Protocol.Manifest.Codec.{digest}
use pubky_swarm.Dataset.Error.{
  Error, integrity, missing_object, unexpected_object, duplicate_object,
}
use pubky_swarm.Dataset.Head.{Provenance, from_manifest}
use pubky_swarm.Dataset.ByteMap.{ByteMap, get, insert}

pub record Snapshot : Type 0 where
  pub manifest : DatasetManifestV1
  pub objects : ByteMap

abbrev pub is_some {ℓ} : {A : Type ℓ} → Option A → Bool
is_some none = false
is_some (some _) = true

-- The first loop of `new`; `insert` returns the value that it replaces.
unfoldable pub collect : ByteMap → List (Bytes × Bytes) → Result Error ByteMap
collect map [] = ok map
collect map ((path, bytes) ∷ objects) =
    let rest = collect (insert path bytes map) objects in
    if is_some (get path map) then err (duplicate_object path) else rest

-- The body of the second loop.
unfoldable pub check_object : Crates → ByteMap → ManifestObjectV1 → Result Error (Unit {0})
unfolding object_digest_verify
check_object x map o = do
  bytes ← ok_or (get o.path map) (missing_object o.path)
  guard (o.size == length bytes) (integrity o.path "byte length does not match the manifest")
  guard (object_digest_verify x o.digest bytes)
      (integrity o.path "BLAKE3 digest does not match the manifest")
  ok tt

unfoldable pub check_objects : Crates → ByteMap → List ManifestObjectV1 → Result Error (Unit {0})
check_objects x map [] = ok tt
check_objects x map (o ∷ os) = do check_object x map o; check_objects x map os

-- The loop over `map.keys()`.
unfoldable pub check_keys : DatasetManifestV1 → ByteMap → Result Error (Unit {0})
check_keys m [] = ok tt
check_keys m ((path, _) ∷ map) = do
  guard (is_some (object m path)) (unexpected_object path)
  check_keys m map

unfoldable pub new_snapshot :
    Crates → DatasetManifestV1 → List (Bytes × Bytes) → Result Error Snapshot
new_snapshot x manifest objects = do
  map ← collect [] objects
  check_objects x map manifest.objects
  check_keys manifest map
  ok (record { manifest = manifest; objects = map })

unfoldable pub snapshot_digest : Crates → Snapshot → ManifestDigest
snapshot_digest x s = digest x s.manifest

unfoldable pub provenance : Crates → Snapshot → Provenance
provenance x s = from_manifest x s.manifest

unfoldable pub snapshot_len : Snapshot → ℕ
snapshot_len s = length s.objects

unfoldable pub snapshot_get : Snapshot → Bytes → Option Bytes
snapshot_get s path = get path s.objects

-- `.filter(..).collect()` over the manifest's objects.
unfoldable pub list_from : Bytes → List ManifestObjectV1 → List ManifestObjectV1
list_from prefix [] = []
list_from prefix (o ∷ os) =
    let rest = list_from prefix os in if starts_with prefix o.path then o ∷ rest else rest

unfoldable pub snapshot_list : Snapshot → Bytes → List ManifestObjectV1
snapshot_list s prefix = list_from prefix s.manifest.objects
