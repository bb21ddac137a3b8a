-- ===== src/Protocol/Manifest/Verify.antt =====
-- What `verify_object` accepts.
use pubky_swarm.Base.{◌≡◌, ◌↔◌, true, some, arith, length}
use pubky_swarm.Base.Bytes.{Bytes, bytes_eq, bytes_eq_iff}
use pubky_swarm.Base.Result.{ok}
use pubky_swarm.Protocol.Crates.{Crates}
use pubky_swarm.Protocol.Manifest.{
  ManifestObjectV1, DatasetManifestV1, validate, object, verify_object,
}
use pubky_swarm.Protocol.Manifest.Lookup.{Declared, object_iff}

-- The size and the digest that an object declares are those of some bytes.
pub record Matches (x : Crates) (o : ManifestObjectV1) (bytes : Bytes) : Type 0 where
  pub size_is : o.size ≡ length bytes
  pub digest_is : x.blake3 bytes ≡ o.digest.bytes

ok_or-eq-ok :
    (m : DatasetManifestV1) (path : Bytes) (x : Crates) (bytes : Bytes) (o : ManifestObjectV1)
    → verify_object x m path bytes ≡ ok o
    → (object m path ≡ some o)
      × (o.size ≡ length bytes)
      × (bytes_eq (x.blake3 bytes) o.digest.bytes ≡ true)
unfolding verify_object
ok_or-eq-ok m path x bytes o e = ground arith

verify_found :
    (m : DatasetManifestV1) (path : Bytes) (x : Crates) (bytes : Bytes) (o : ManifestObjectV1)
    → object m path ≡ some o
    → o.size ≡ length bytes
    → bytes_eq (x.blake3 bytes) o.digest.bytes ≡ true
    → verify_object x m path bytes ≡ ok o
unfolding verify_object
verify_found m path x bytes o f s d = ground arith

-- In a valid manifest, bytes are accepted for a path exactly when the manifest lists an object of
-- that path whose size and digest are those of the bytes.
pub verify_object_iff :
    (x : Crates) (m : DatasetManifestV1) (path bytes : Bytes) (o : ManifestObjectV1)
    → validate m ≡ ok tt
    → (verify_object x m path bytes ≡ ok o) ↔ (Declared m o × (o.path ≡ path) × Matches x o bytes)
verify_object_iff x m path bytes o v = (
  λ e.
      let (found, size, digest) = ok_or-eq-ok m path x bytes o e in
      let (declared, level) = (object_iff m path o v).0 found in
      (declared, level, record { size_is = size; digest_is = (bytes_eq_iff _ _).0 digest }),
  λ (declared, level, h).
      verify_found m path x bytes o ((object_iff m path o v).1 (declared, level)) h.size_is
        ((bytes_eq_iff _ _).1 h.digest_is),
)
