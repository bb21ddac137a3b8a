-- ===== src/Protocol/Subject.antt =====
-- crates/swarm-protocol/src/catalog.rs: the text of torrent references, canonical URIs, the
-- subjects of catalog artifacts with their derived order, and source attribution.
pub mod RoundTrip
pub mod Order
use pubky_swarm.Base.{
  ℕ, ◌≡◌, Bool, true, false, not, ◌&&◌, ◌||◌, Option, none, some, List, [], ◌∷◌, ◌++◌, leb, ltb,
  ◌==◌, if◌then◌else◌, length, any, take, drop,
}
use pubky_swarm.Base.Bytes.{Bytes, codes, bytes_eq, bytes_lt, is_digit, strip_prefix}
use pubky_swarm.Base.Order.{lex}
use pubky_swarm.Base.Result.{Result, ok, err, ◌>>=◌, ◌>>◌, guard, ok_or}
use pubky_swarm.Protocol.Crates.{Crates, Url}
use pubky_swarm.Protocol.Error.{
  Error, Reason, invalid_field, says, foreign, expected_hexadecimal, expected_bytes, not_canonical,
}
use pubky_swarm.Protocol.Ids.{InfoHashV1, info_hash_to_hex, info_hash_from_str, to_array}
use pubky_swarm.Protocol.Import.{Btmh, TorrentRef, btih, btmh, verified_hybrid, ImportProvenance}

-- `Btmh::from_sha256` of 32 bytes, and `sha256`.
unfoldable pub from_sha256 : Bytes → Btmh
from_sha256 digest = record { bytes = 0x12 ∷ 0x20 ∷ digest }

unfoldable pub sha256 : Btmh → Bytes
sha256 multihash = drop 2 multihash.bytes

-- The byte test of the parsers of lowercase hexadecimal digits.
unfoldable pub has_other_digits : Bytes → Bool
has_other_digits = any (λ b. not (is_digit b) && not (leb b'a' b && leb b b'f'))

-- `value.split_once(separator)` at a string.
unfoldable pub split_once_str : Bytes → Bytes → Option (Bytes × Bytes)
split_once_str separator [] = elim (strip_prefix separator []) [
  | none ↦ none
  | some rest ↦ some ([], rest)
]
split_once_str separator (c ∷ s) = elim (strip_prefix separator (c ∷ s)) [
  | some rest ↦ some ([], rest)
  | none ↦ elim (split_once_str separator s) [ none ↦ none | some (a, b) ↦ some (c ∷ a, b) ]
]

module _ (x : Crates) where
  unfoldable pub btmh_to_text : Btmh → Bytes
  btmh_to_text multihash = x.hex_encode multihash.bytes

  unfoldable pub btmh_from_str : Bytes → Result Error Btmh
  btmh_from_str value = do
    guard (length value == 68) (invalid_field "btmh" (expected_hexadecimal 68 (length value)))
    guard (not (has_other_digits value))
        (invalid_field "btmh" (says "must be lowercase hexadecimal"))
    bytes ← ok_or (x.hex_decode value) (invalid_field "btmh" foreign)
    bytes ← to_array 34 (λ _. invalid_field "btmh" (says "expected 34 multihash bytes")) bytes
    guard (bytes_eq (take 2 bytes) (0x12 ∷ 0x20 ∷ []))
        (invalid_field "btmh" (says "only canonical SHA2-256 multihashes are supported"))
    ok (record { bytes = bytes })

  unfoldable pub parse_normalized_btih : Bytes → Result Error InfoHashV1
  parse_normalized_btih value = do
    guard (not (not (length value == 40) || has_other_digits value))
        (invalid_field "btih" (says "expected 40 lowercase hexadecimal characters"))
    info_hash_from_str x value

-- `TorrentRef::v1` and `v2`.
unfoldable pub v1 : TorrentRef → Option InfoHashV1
v1 (btih hash) = some hash
v1 (verified_hybrid hash _) = some hash
v1 (btmh _) = none

unfoldable pub v2 : TorrentRef → Option Btmh
v2 (btmh hash) = some hash
v2 (verified_hybrid _ hash) = some hash
v2 (btih _) = none

module _ (x : Crates) where
  unfoldable pub torrent_ref_to_text : TorrentRef → Bytes
  torrent_ref_to_text (btih hash) = codes "btih:" ++ info_hash_to_hex x hash
  torrent_ref_to_text (btmh hash) = codes "btmh:" ++ btmh_to_text x hash
  torrent_ref_to_text (verified_hybrid v1_hash v2_hash) =
      codes "hybrid:btih:"
      ++ (info_hash_to_hex x v1_hash ++ (codes ":btmh:" ++ btmh_to_text x v2_hash))

  -- What stands after `hybrid:btih:`.
  unfoldable pub hybrid_from_str : Bytes → Result Error TorrentRef
  hybrid_from_str value = do
    (v1_hash, v2_hash) ←
        ok_or (split_once_str (codes ":btmh:") value)
          (invalid_field "torrent_ref" (says "malformed hybrid reference"))
    v1_hash ← parse_normalized_btih x v1_hash
    v2_hash ← btmh_from_str x v2_hash
    ok (verified_hybrid v1_hash v2_hash)

  unfoldable pub torrent_ref_from_str : Bytes → Result Error TorrentRef
  torrent_ref_from_str value = elim (strip_prefix (codes "btih:") value) [
    | some rest ↦ do hash ← parse_normalized_btih x rest; ok (btih hash)
    | none ↦ elim (strip_prefix (codes "btmh:") value) [
      | some rest ↦ do hash ← btmh_from_str x rest; ok (btmh hash)
      | none ↦ elim (strip_prefix (codes "hybrid:btih:") value) [
        | some rest ↦ hybrid_from_str rest
        | none ↦ err (
            invalid_field "torrent_ref" (says "expected btih:, btmh:, or hybrid:btih:...:btmh:..."))
      ]
    ]
  ]

pub record CanonicalUri : Type 0 where
  pub text : Bytes

is_present : Option Bytes → Bool
is_present none = false
is_present (some _) = true

unfoldable pub canonical_uri_new : Crates → Bytes → Result Error CanonicalUri
unfolding is_present
canonical_uri_new x value = do
  guard (leb (length value) 2048) (invalid_field "uri" (says "maximum is 2048 bytes"))
  parsed ← ok_or (x.parse_url value) (invalid_field "uri" foreign)
  guard (not (parsed.cannot_be_a_base && not (bytes_eq parsed.scheme (codes "urn"))))
      (invalid_field "uri" (says "opaque URIs are only supported for urn:"))
  guard (not (not (bytes_eq parsed.username []) || is_present parsed.password))
      (invalid_field "uri" (says "credentials are not allowed"))
  guard (not (is_present parsed.fragment)) (invalid_field "uri" (says "fragments are not allowed"))
  guard (bytes_eq parsed.text value) (invalid_field "uri" (not_canonical parsed.text))
  ok (record { text = value })

pub data SubjectRef : Type 0 where
  torrent : TorrentRef → SubjectRef
  uri : CanonicalUri → SubjectRef

unfoldable pub subject_to_text : Crates → SubjectRef → Bytes
subject_to_text x (torrent reference) = codes "torrent:" ++ torrent_ref_to_text x reference
subject_to_text x (uri address) = codes "uri:" ++ address.text

-- The derived `Ord` compares the number of the variant, then the fields in turn: each is compared
-- as bytes.
unfoldable pub torrent_key : TorrentRef → List Bytes
torrent_key (btih hash) = (0 ∷ []) ∷ hash.bytes ∷ []
torrent_key (btmh hash) = (1 ∷ []) ∷ hash.bytes ∷ []
torrent_key (verified_hybrid v1_hash v2_hash) = (2 ∷ []) ∷ v1_hash.bytes ∷ v2_hash.bytes ∷ []

unfoldable pub subject_key : SubjectRef → List Bytes
subject_key (torrent reference) = (0 ∷ []) ∷ torrent_key reference
subject_key (uri address) = (1 ∷ []) ∷ address.text ∷ []

unfoldable pub subject_lt : SubjectRef → SubjectRef → Bool
subject_lt a b = lex bytes_lt (subject_key a) (subject_key b)

pub data SourceAttribution : Type 0 where
  direct : SourceAttribution
  source_uri : CanonicalUri → SourceAttribution
  imported : ImportProvenance → Option CanonicalUri → SourceAttribution
