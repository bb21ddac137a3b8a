-- ===== src/Protocol/Manifest/RoundTrip.antt =====
-- The canonical bytes of a manifest are read back, and what is read is written as the same bytes.
use pubky_swarm.Base.{
  ℕ, ◌≤◌, ◌<◌, ◌^◌, ◌≡◌, refl, sym, true, not, List, [], ◌∷◌, ◌++◌, arith, ltb, length, All,
  append_assoc, append-nil, length-append, take-append, drop-append,
}
use pubky_swarm.Base.Bytes.{
  Bytes, IsBytes, to_be_bytes, length-to_be_bytes, from-to_be_bytes, bytes_eq_refl, bytes_eq_iff,
}
use pubky_swarm.Base.Utf8.{is_utf8}
use pubky_swarm.Base.Result.{ok}
use pubky_swarm.Protocol.Crates.{Crates}
use pubky_swarm.Protocol.Ids.{IsArray, PublisherId, publisher_from_bytes}
use pubky_swarm.Protocol.Manifest.{
  ManifestObjectV1, DatasetManifestV1, manifest_schema, manifest_version, max_manifest_objects,
  validate,
}
use pubky_swarm.Protocol.Manifest.Codec.{
  manifest_prefix, write_object, write_objects, to_canonical_bytes, take_bytes, take_u64,
  read_object, read_objects, from_canonical_bytes,
}

-- What the Rust types say of the fields.
pub record IsTypedObject (o : ManifestObjectV1) : Type 0 where
  pub path_text : is_utf8 o.path ≡ true
  pub path_bytes : IsBytes o.path
  pub path_length : length o.path < 2 ^ 64
  pub size_range : o.size < 2 ^ 64
  pub digest_array : IsArray 32 o.digest.bytes

pub record IsTyped (x : Crates) (m : DatasetManifestV1) : Type 0 where
  pub key_array : IsArray 32 m.publisher.key
  pub key_valid : x.is_key m.publisher.key ≡ true
  pub created_range : m.created_at < 2 ^ 64
  pub typed_objects : All IsTypedObject m.objects

take_bytes-append : (n : ℕ) (p s : Bytes) → length p ≡ n → take_bytes n (p ++ s) ≡ ok (p, s)
unfolding take_bytes
take_bytes-append n p s h =
    rw (take-append n p s h, drop-append n p s h) (ground (arith, length-append p s))

take_u64-append : (v : ℕ) (s : Bytes) → v < 2 ^ 64 → take_u64 (to_be_bytes 8 v ++ s) ≡ ok (v, s)
unfolding take_u64
take_u64-append v s h =
    rw (take_bytes-append 8 (to_be_bytes 8 v) s (length-to_be_bytes 8 v))
      (rw (from-to_be_bytes v h))

read_object-append :
    (o : ManifestObjectV1) (s : Bytes)
    → IsTypedObject o
    → read_object (write_object o ++ s) ≡ ok (o, s)
unfolding read_object write_object
read_object-append o s t = simp append_assoc (
    rw (take_u64-append (length o.path) _ t.path_length) (
      rw (take_bytes-append (length o.path) o.path _ refl) (
        rw t.path_text (
          rw (take_u64-append o.size _ t.size_range)
            (rw (take_bytes-append 32 o.digest.bytes s t.digest_array.0))))))

read_objects-append :
    (os : List ManifestObjectV1) (s : Bytes)
    → All IsTypedObject os
    → read_objects (length os) (write_objects os ++ s) ≡ ok (os, s)
unfolding read_objects write_objects
read_objects-append [] s t = refl
read_objects-append (o ∷ os) s t =
    simp append_assoc
      (rw (read_object-append o (write_objects os ++ s) t.0) (rw (read_objects-append os s t.1)))

read_objects-All :
    (os : List ManifestObjectV1)
    → All IsTypedObject os
    → read_objects (length os) (write_objects os) ≡ ok (os, [])
read_objects-All os t = rw append-nil at (read_objects-append os [] t)

-- The header that validation has tested.
pub record Header (m : DatasetManifestV1) : Type 0 where
  pub schema_is : m.schema ≡ manifest_schema
  pub version_is : m.version ≡ manifest_version
  pub created_positive : 0 < m.created_at
  pub count_max : length m.objects ≤ max_manifest_objects

pub validate-Header : (m : DatasetManifestV1) → validate m ≡ ok tt → Header m
unfolding validate
validate-Header m v = record {
  schema_is = (bytes_eq_iff m.schema manifest_schema).0 (ground arith);
  version_is = ground arith;
  created_positive = ground arith;
  count_max = ground arith;
}

abbrev rebuilt : DatasetManifestV1 → DatasetManifestV1
rebuilt m = record m { schema = manifest_schema; version = manifest_version }

rebuild : (m : DatasetManifestV1) → Header m → rebuilt m ≡ m
rebuild m h = λ i. record m { schema = sym h.schema_is i; version = sym h.version_is i }

from_key :
    (x : Crates) (p : PublisherId) → x.is_key p.key ≡ true → publisher_from_bytes x p.key ≡ ok p
unfolding publisher_from_bytes
from_key x p h = rw h

room : (n : ℕ) → n ≤ max_manifest_objects → not (ltb max_manifest_objects n) ≡ true
room n h = ground arith

-- A manifest that passes validation is read back from its canonical bytes.
pub from-to_canonical_bytes :
    (x : Crates) (m : DatasetManifestV1)
    → IsTyped x m
    → validate m ≡ ok tt
    → from_canonical_bytes x (to_canonical_bytes m) ≡ ok m
unfolding from_canonical_bytes to_canonical_bytes
from-to_canonical_bytes x m t v =
    let h = validate-Header m v in
    rw (take_bytes-append (length manifest_prefix) manifest_prefix _ refl) (
      rw (bytes_eq_refl manifest_prefix) (
        rw (take_bytes-append 32 m.publisher.key _ t.key_array.0) (
          rw (from_key x m.publisher t.key_valid) (
            rw (take_u64-append m.created_at _ t.created_range) (
              rw
                (take_u64-append (length m.objects) (write_objects m.objects)
                  (omega (arith, h.count_max)))
                (rw (room (length m.objects) h.count_max)
                  (rw (read_objects-All m.objects t.typed_objects) (rw (rebuild m h) (rw v)))))))))
