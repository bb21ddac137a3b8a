-- ===== src/Protocol/Ids/RoundTrip.antt =====
-- The hexadecimal forms of the identifiers are read back.
use pubky_swarm.Base.{◌≡◌, arith, all, true}
use pubky_swarm.Base.Bytes.{Bytes}
use pubky_swarm.Base.Result.{ok}
use pubky_swarm.Protocol.Crates.{Crates, HexLaws, is_lower_hex}
use pubky_swarm.Protocol.Error.{Error, Reason}
use pubky_swarm.Protocol.Ids.{
  IsArray, InfoHashV1, ReleaseId, ObjectDigest, ManifestDigest, info_hash_to_hex,
  info_hash_from_str, release_id_to_hex, release_id_from_str, parse_hex_digest,
  object_digest_to_hex, object_digest_from_str, manifest_digest_to_hex, manifest_digest_from_str,
}

module _ (x : Crates) (laws : HexLaws x) where
  pub info_hash-round :
      (h : InfoHashV1) → IsArray 20 h.bytes → info_hash_from_str x (info_hash_to_hex x h) ≡ ok h
  unfolding info_hash_from_str info_hash_to_hex
  info_hash-round h a =
      ground (arith, laws.length_encode h.bytes, laws.decode_encode h.bytes, a.0, a.1)

  -- What is read from lowercase digits is written as the same digits.
  pub info_hash-canonical :
      (s : Bytes) (h : InfoHashV1)
      → all is_lower_hex s ≡ true
      → info_hash_from_str x s ≡ ok h
      → (info_hash_to_hex x h ≡ s) × IsArray 20 h.bytes
  unfolding info_hash_from_str info_hash_to_hex
  info_hash-canonical s h l e =
      ground (arith, laws.encode_decode s h.bytes, laws.decode_IsBytes s h.bytes)

  release_id-round :
      (i : ReleaseId) → IsArray 16 i.bytes → release_id_from_str x (release_id_to_hex x i) ≡ ok i
  unfolding release_id_from_str release_id_to_hex
  release_id-round i a =
      ground (arith, laws.length_encode i.bytes, laws.decode_encode i.bytes, a.0, a.1)

  digest-round :
      (b : Bytes) (error : Reason → Error)
      → IsArray 32 b
      → parse_hex_digest x (x.hex_encode b) error ≡ ok b
  unfolding parse_hex_digest
  digest-round b error a = ground (arith, laws.length_encode b, laws.decode_encode b, a.0, a.1)

  -- `from_str` reads back what `to_hex` writes, for each identifier of the right length.
  pub hex_ids-round :
      (h : InfoHashV1) (i : ReleaseId) (o : ObjectDigest) (m : ManifestDigest)
      → IsArray 20 h.bytes
      → IsArray 16 i.bytes
      → IsArray 32 o.bytes
      → IsArray 32 m.bytes
      → (info_hash_from_str x (info_hash_to_hex x h) ≡ ok h)
        × (release_id_from_str x (release_id_to_hex x i) ≡ ok i)
        × (object_digest_from_str x (object_digest_to_hex x o) ≡ ok o)
        × (manifest_digest_from_str x (manifest_digest_to_hex x m) ≡ ok m)
  unfolding object_digest_from_str object_digest_to_hex manifest_digest_from_str
      manifest_digest_to_hex
  hex_ids-round h i o m a b c d = (
    info_hash-round h a,
    release_id-round i b,
    rw (digest-round o.bytes _ c),
    rw (digest-round m.bytes _ d),
  )
