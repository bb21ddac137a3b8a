-- ===== src/Protocol/Ids.antt =====
-- crates/swarm-protocol/src/lib.rs: `InfoHashV1`, `PublisherId`, `ReleaseId`, `ObjectDigest` and
-- `ManifestDigest`. A fixed array `[u8; N]` is a list of bytes, with its length in `IsArray`. A
-- public key is read through its 32 bytes, on which its equality is defined.
pub mod RoundTrip
use pubky_swarm.Base.{
  ℕ, ◌≡◌, Bool, Option, none, some, ◌++◌, ◌==◌, if◌then◌else◌, not, length, take,
}
use pubky_swarm.Base.Bytes.{Bytes, IsBytes, codes, bytes_eq, to_be_bytes}
use pubky_swarm.Base.Result.{Result, ok, err, ◌>>=◌, ◌>>◌, guard, ok_or}
use pubky_swarm.Protocol.Crates.{Crates}
use pubky_swarm.Protocol.Error.{
  Error, Reason, invalid_info_hash, invalid_publisher, invalid_release_id, invalid_object_digest,
  invalid_manifest_digest, expected_hexadecimal, expected_bytes, foreign,
}

-- What the type `[u8; n]` says.
abbrev pub IsArray : ℕ → Bytes → Type 0
IsArray n b = (length b ≡ n) × IsBytes b

-- `bytes.try_into()` to `[u8; n]`.
unfoldable pub to_array : ℕ → (Reason → Error) → Bytes → Result Error Bytes
to_array n error b = if length b == n then ok b else err (error (expected_bytes n (length b)))

pub record InfoHashV1 : Type 0 where
  pub bytes : Bytes

pub record PublisherId : Type 0 where
  pub key : Bytes

pub record ReleaseId : Type 0 where
  pub bytes : Bytes

pub record ObjectDigest : Type 0 where
  pub bytes : Bytes

pub record ManifestDigest : Type 0 where
  pub bytes : Bytes

unfoldable pub release_domain : Bytes
release_domain = codes "pubky.swarm/release/v1" ++ codes "\0"

module _ (x : Crates) where
  -- `InfoHashV1::to_hex`, which `Display` writes too.
  unfoldable pub info_hash_to_hex : InfoHashV1 → Bytes
  info_hash_to_hex h = x.hex_encode h.bytes

  unfoldable pub info_hash_from_str : Bytes → Result Error InfoHashV1
  unfolding to_array
  info_hash_from_str value =
      if not (length value == 40)
      then err (invalid_info_hash (expected_hexadecimal 40 (length value)))
      else do
        bytes ← ok_or (x.hex_decode value) (invalid_info_hash foreign)
        bytes ← to_array 20 invalid_info_hash bytes
        ok (record { bytes = bytes })

  unfoldable pub publisher_from_bytes : Bytes → Result Error PublisherId
  publisher_from_bytes bytes =
      if x.is_key bytes then ok (record { key = bytes }) else err (invalid_publisher foreign)

  -- The hasher takes the parts one after the other.
  unfoldable pub release_id_derive : PublisherId → ℕ → InfoHashV1 → ReleaseId
  release_id_derive publisher created_at info_hash = record {
    bytes = take 16 (
        x.blake3
          (release_domain ++ (publisher.key ++ (to_be_bytes 8 created_at ++ info_hash.bytes))));
  }

  unfoldable pub release_id_to_hex : ReleaseId → Bytes
  release_id_to_hex id = x.hex_encode id.bytes

  unfoldable pub release_id_from_str : Bytes → Result Error ReleaseId
  unfolding to_array
  release_id_from_str value =
      if not (length value == 32)
      then err (invalid_release_id (expected_hexadecimal 32 (length value)))
      else do
        bytes ← ok_or (x.hex_decode value) (invalid_release_id foreign)
        bytes ← to_array 16 invalid_release_id bytes
        ok (record { bytes = bytes })

  unfoldable pub parse_hex_digest : Bytes → (Reason → Error) → Result Error Bytes
  unfolding to_array
  parse_hex_digest value error =
      if not (length value == 64)
      then err (error (expected_hexadecimal 64 (length value)))
      else do bytes ← ok_or (x.hex_decode value) (error foreign); to_array 32 error bytes

  unfoldable pub object_digest_of : Bytes → ObjectDigest
  object_digest_of bytes = record { bytes = x.blake3 bytes }

  unfoldable pub object_digest_verify : ObjectDigest → Bytes → Bool
  object_digest_verify digest bytes = bytes_eq (x.blake3 bytes) digest.bytes

  unfoldable pub object_digest_to_hex : ObjectDigest → Bytes
  object_digest_to_hex digest = x.hex_encode digest.bytes

  unfoldable pub object_digest_from_str : Bytes → Result Error ObjectDigest
  unfolding parse_hex_digest
  object_digest_from_str value = do
    bytes ← parse_hex_digest value invalid_object_digest
    ok (record { bytes = bytes })

  unfoldable pub manifest_digest_to_hex : ManifestDigest → Bytes
  manifest_digest_to_hex digest = x.hex_encode digest.bytes

  unfoldable pub manifest_digest_from_str : Bytes → Result Error ManifestDigest
  unfolding parse_hex_digest
  manifest_digest_from_str value = do
    bytes ← parse_hex_digest value invalid_manifest_digest
    ok (record { bytes = bytes })
