-- ===== src/Protocol/Manifest/Codec.antt =====
-- crates/swarm-protocol/src/lib.rs: `DatasetManifestV1::to_canonical_bytes`,
-- `from_canonical_bytes` and `digest`. A cursor is the list of the bytes left; `usize` has 64 bits.
use pubky_swarm.Base.{
  ℕ, zero, suc, ◌≡◌, refl, Bool, true, false, List, [], ◌∷◌, ◌++◌, ltb, not, if◌then◌else◌, length,
  take, drop,
}
use pubky_swarm.Base.Bytes.{Bytes, codes, bytes_eq, to_be_bytes, from_be_bytes}
use pubky_swarm.Base.Utf8.{is_utf8}
use pubky_swarm.Base.Result.{Result, ok, err, ◌>>=◌, ◌>>◌, guard}
use pubky_swarm.Protocol.Crates.{Crates}
use pubky_swarm.Protocol.Error.{Error, invalid_canonical_bytes}
use pubky_swarm.Protocol.Ids.{ManifestDigest, publisher_from_bytes}
use pubky_swarm.Protocol.Manifest.{
  ManifestObjectV1, DatasetManifestV1, manifest_schema, manifest_version, max_manifest_objects,
  validate,
}

unfoldable pub manifest_prefix : Bytes
manifest_prefix = codes "pubky.swarm/dataset-manifest/v1\0"

unfoldable pub write_object : ManifestObjectV1 → Bytes
write_object o =
    to_be_bytes 8 (length o.path) ++ (o.path ++ (to_be_bytes 8 o.size ++ o.digest.bytes))

unfoldable pub write_objects : List ManifestObjectV1 → Bytes
write_objects [] = []
write_objects (o ∷ os) = write_object o ++ write_objects os

unfoldable pub to_canonical_bytes : DatasetManifestV1 → Bytes
to_canonical_bytes m =
    manifest_prefix
    ++ (m.publisher.key
        ++ (to_be_bytes 8 m.created_at
            ++ (to_be_bytes 8 (length m.objects) ++ write_objects m.objects)))

unfoldable pub digest : Crates → DatasetManifestV1 → ManifestDigest
digest x m = record { bytes = x.blake3 (to_canonical_bytes m) }

-- `take` and `take_array`: the bytes taken, and the cursor behind them.
unfoldable pub take_bytes : ℕ → Bytes → Result Error (Bytes × Bytes)
take_bytes n cursor =
    if ltb (length cursor) n
    then err (invalid_canonical_bytes "truncated")
    else ok (take n cursor, drop n cursor)

unfoldable pub take_u64 : Bytes → Result Error (ℕ × Bytes)
take_u64 cursor = do (bytes, cursor) ← take_bytes 8 cursor; ok (from_be_bytes 0 bytes, cursor)

-- The body of the loop.
unfoldable pub read_object : Bytes → Result Error (ManifestObjectV1 × Bytes)
read_object cursor = do
  (path_length, cursor) ← take_u64 cursor
  (path, cursor) ← take_bytes path_length cursor
  guard (is_utf8 path) (invalid_canonical_bytes "object path is not UTF-8")
  (size, cursor) ← take_u64 cursor
  (digest, cursor) ← take_bytes 32 cursor
  ok (record { path = path; size = size; digest = record { bytes = digest } }, cursor)

unfoldable pub read_objects : ℕ → Bytes → Result Error (List ManifestObjectV1 × Bytes)
read_objects zero cursor = ok ([], cursor)
read_objects (suc count) cursor = do
  (object, cursor) ← read_object cursor
  (objects, cursor) ← read_objects count cursor
  ok (object ∷ objects, cursor)

abbrev pub is_empty : Bytes → Bool
is_empty [] = true
is_empty (_ ∷ _) = false

unfoldable pub from_canonical_bytes : Crates → Bytes → Result Error DatasetManifestV1
from_canonical_bytes x bytes = do
  (prefix, cursor) ← take_bytes (length manifest_prefix) bytes
  guard (bytes_eq prefix manifest_prefix) (invalid_canonical_bytes "unsupported domain prefix")
  (key, cursor) ← take_bytes 32 cursor
  publisher ← publisher_from_bytes x key
  (created_at, cursor) ← take_u64 cursor
  (count, cursor) ← take_u64 cursor
  guard (not (ltb max_manifest_objects count))
      (invalid_canonical_bytes "object count exceeds limit")
  (objects, cursor) ← read_objects count cursor
  guard (is_empty cursor) (invalid_canonical_bytes "trailing bytes")
  let manifest : DatasetManifestV1 = record {
    schema = manifest_schema;
    version = manifest_version;
    publisher = publisher;
    created_at = created_at;
    objects = objects;
  }
  validate manifest
  ok manifest

prefix_length : length manifest_prefix ≡ 32
unfolding manifest_prefix
prefix_length = refl
