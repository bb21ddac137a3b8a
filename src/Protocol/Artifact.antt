-- ===== src/Protocol/Artifact.antt =====
-- crates/swarm-protocol/src/catalog.rs: what the catalog artifacts share, `ArtifactId`, the checks
-- of their fields and `CanonicalWriter`, whose methods are here the bytes that they append.
pub mod Claim
pub mod Collection
pub mod Tombstone
pub mod Moderation
pub mod Blocklist
pub mod Writer
pub mod Canonical
pub mod Fields
pub mod Accepted
pub mod Subjects
pub mod Valid
use pubky_swarm.Base.{
  ℕ, ◌≡◌, Bool, true, false, not, ◌&&◌, ◌||◌, Option, none, some, List, [], ◌∷◌, ◌++◌, leb, ltb,
  ◌==◌, if◌then◌else◌, length, all, replicate,
}
use pubky_swarm.Base.Bytes.{Bytes, codes, bytes_eq, is_digit, is_ascii_lowercase, to_be_bytes}
use pubky_swarm.Base.Result.{Result, ok, err, ◌>>=◌, ◌>>◌, guard, ok_or}
use pubky_swarm.Protocol.Crates.{Crates}
use pubky_swarm.Protocol.Error.{Error, Reason, invalid_field, says, foreign, expected_subjects}
use pubky_swarm.Protocol.Ids.{PublisherId, to_array}
use pubky_swarm.Protocol.Import.{
  ImportProvenance, info_authenticated, top_level_hint, magnet_hint, indexer_claim, local_client,
}
use pubky_swarm.Protocol.Subject.{
  has_other_digits, torrent_ref_to_text, CanonicalUri, SubjectRef, torrent, uri, subject_lt,
  SourceAttribution, direct, source_uri, imported,
}

abbrev pub max_artifact_subjects : ℕ
max_artifact_subjects = 10_000

abbrev pub artifact_version : ℕ
artifact_version = 1

pub record ArtifactId : Type 0 where
  pub bytes : Bytes

-- `ArtifactId([0; 32])`, which stands in an artifact until its id is derived.
unfoldable pub no_id : ArtifactId
no_id = record { bytes = replicate 32 0 }

module _ (x : Crates) where
  unfoldable pub derive : Bytes → ArtifactId
  derive bytes = record { bytes = x.blake3 bytes }

  unfoldable pub id_to_text : ArtifactId → Bytes
  id_to_text id = x.hex_encode id.bytes

  unfoldable pub id_from_str : Bytes → Result Error ArtifactId
  id_from_str value = do
    guard (not (not (length value == 64) || has_other_digits value))
        (invalid_field "artifact_id" (says "expected 64 lowercase hexadecimal characters"))
    bytes ← ok_or (x.hex_decode value) (invalid_field "artifact_id" foreign)
    bytes ← to_array 32 (λ _. invalid_field "artifact_id" (says "expected 32 bytes")) bytes
    ok (record { bytes = bytes })

-- `==` of the ids.
unfoldable pub same_id : ArtifactId → ArtifactId → Bool
same_id a b = bytes_eq a.bytes b.bytes

unfoldable pub validate_header : Bytes → Bytes → ℕ → ℕ → ℕ → Result Error (Unit {0})
validate_header schema expected_schema version created_at revision = do
  guard (bytes_eq schema expected_schema) (invalid_field "schema" (says "unsupported schema"))
  guard (version == artifact_version) (invalid_field "version" (says "unsupported version"))
  guard (not (created_at == 0)) (invalid_field "created_at" (says "must be positive"))
  guard (not (revision == 0)) (invalid_field "revision" (says "must be positive"))

-- `!subjects.windows(2).any(|pair| pair[0] >= pair[1])`.
unfoldable pub is_ascending : List SubjectRef → Bool
is_ascending [] = true
is_ascending (a ∷ []) = true
is_ascending (a ∷ b ∷ subjects) = subject_lt a b && is_ascending (b ∷ subjects)

unfoldable pub validate_subjects : List SubjectRef → Result Error (Unit {0})
validate_subjects subjects = do
  guard (not (length subjects == 0 || ltb max_artifact_subjects (length subjects)))
      (invalid_field "subjects" (expected_subjects max_artifact_subjects))
  guard (is_ascending subjects)
      (invalid_field "subjects" (says "subjects must be sorted and unique"))

unfoldable pub validate_source : SourceAttribution → Result Error (Unit {0})
validate_source (imported (indexer_claim _) none) =
    err (invalid_field "source.locator" (says "indexer imports require a canonical source locator"))
validate_source _ = ok tt

unfoldable pub validate_tag : Bytes → Result Error (Unit {0})
validate_tag value =
    guard
      (not (
        bytes_eq value []
        || ltb 32 (length value)
        || not (all (λ b. is_ascii_lowercase b || is_digit b || b == b'-') value)))
      (invalid_field "tag" (says "must be 1..=32 lowercase ASCII letters, digits, or hyphens"))

unfoldable pub write_u64 : ℕ → Bytes
write_u64 value = to_be_bytes 8 value

unfoldable pub write_string : Bytes → Bytes
write_string value = write_u64 (length value) ++ value

unfoldable pub write_publisher : PublisherId → Bytes
write_publisher value = value.key

unfoldable pub write_subject : Crates → SubjectRef → Bytes
write_subject x (torrent reference) = 0 ∷ write_string (torrent_ref_to_text x reference)
write_subject x (uri address) = 1 ∷ write_string address.text

-- The loop of `subjects`.
unfoldable pub write_each : Crates → List SubjectRef → Bytes
write_each x [] = []
write_each x (value ∷ values) = write_subject x value ++ write_each x values

unfoldable pub write_subjects : Crates → List SubjectRef → Bytes
write_subjects x values = write_u64 (length values) ++ write_each x values

unfoldable pub write_provenance : ImportProvenance → Bytes
write_provenance info_authenticated = 0 ∷ []
write_provenance top_level_hint = 1 ∷ []
write_provenance magnet_hint = 2 ∷ []
write_provenance (indexer_claim issuer) = 3 ∷ write_publisher issuer
write_provenance local_client = 4 ∷ []

unfoldable pub write_locator : Option CanonicalUri → Bytes
write_locator (some address) = 1 ∷ write_string address.text
write_locator none = 0 ∷ []

unfoldable pub write_source : SourceAttribution → Bytes
write_source direct = 0 ∷ []
write_source (source_uri address) = 1 ∷ write_string address.text
write_source (imported provenance locator) =
    2 ∷ (write_provenance provenance ++ write_locator locator)
