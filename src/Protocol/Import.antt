-- ===== src/Protocol/Import.antt =====
-- crates/swarm-protocol/src/catalog.rs: torrent references, import observations and their trust
-- boundaries, and `PublicCatalogImport`.
pub mod Boundary
pub mod Public
pub mod Sources
pub mod Derived
pub mod Extension
pub mod Files
use Prim.Native.String.{String}
use pubky_swarm.Base.{
  ℕ, ◌≡◌, Bool, true, false, not, ◌&&◌, ◌||◌, Option, none, some, List, [], ◌∷◌, ltb, leb, ◌==◌,
  if◌then◌else◌, length, all, any,
}
use pubky_swarm.Base.Bytes.{Bytes, bytes_eq, is_digit, is_ascii_lowercase, is_ascii_uppercase}
use pubky_swarm.Base.Result.{Result, ok, err, ◌>>=◌, ◌>>◌, guard}
use pubky_swarm.Protocol.Crates.{Crates}
use pubky_swarm.Protocol.Error.{Error, invalid_field, says, expected_observations, portable_key}
use pubky_swarm.Protocol.Ids.{InfoHashV1, PublisherId}
use pubky_swarm.Protocol.Portable.{validate_text}
use pubky_swarm.Protocol.Release.{validate_tracker_url}

pub record Btmh : Type 0 where
  pub bytes : Bytes

pub data TorrentRef : Type 0 where
  btih : InfoHashV1 → TorrentRef
  btmh : Btmh → TorrentRef
  verified_hybrid : InfoHashV1 → Btmh → TorrentRef

-- The derived `==`.
unfoldable pub same_torrent : TorrentRef → TorrentRef → Bool
same_torrent (btih a) (btih b) = bytes_eq a.bytes b.bytes
same_torrent (btmh a) (btmh b) = bytes_eq a.bytes b.bytes
same_torrent (verified_hybrid a c) (verified_hybrid b d) =
    bytes_eq a.bytes b.bytes && bytes_eq c.bytes d.bytes
same_torrent _ _ = false

pub data ImportProvenance : Type 0 where
  info_authenticated : ImportProvenance
  top_level_hint : ImportProvenance
  magnet_hint : ImportProvenance
  indexer_claim : PublisherId → ImportProvenance
  local_client : ImportProvenance

pub data DerivedContentType : Type 0 where
  audio video image document archive software other : DerivedContentType

pub data TrackerSource : Type 0 where
  announce announce_list magnet indexer local : TrackerSource

pub data RelationKind : Type 0 where
  similar collection : RelationKind

pub data SuggestionNamespace : Type 0 where
  kt torznab q_bittorrent : SuggestionNamespace

pub data ObservationValue : Type 0 where
  title : Bytes → ObservationValue
  privacy : Bool → ObservationValue
  file_extension : Bytes → ObservationValue
  file_type : DerivedContentType → ObservationValue
  comment : Bytes → ObservationValue
  creator : Bytes → ObservationValue
  creation_date : ℕ → ObservationValue
  tracker : Bytes → TrackerSource → ObservationValue
  relation : RelationKind → TorrentRef → ObservationValue
  suggestion : SuggestionNamespace → Bytes → Bytes → PublisherId → ObservationValue

-- `ImportObservationWire` has the same fields.
pub record ImportObservation : Type 0 where
  pub subject : TorrentRef
  pub observed_at : ℕ
  pub provenance : ImportProvenance
  pub value : ObservationValue

is_key_byte : ℕ → Bool
is_key_byte b =
    is_ascii_lowercase b
    || is_ascii_uppercase b
    || is_digit b
    || b == b'-'
    || b == b'_'
    || b == b'.'
    || b == b':'

unfoldable pub validate_key : String → Bytes → ℕ → Result Error (Unit {0})
unfolding is_key_byte
validate_key field value maximum =
    guard (not (bytes_eq value [] || ltb maximum (length value) || not (all is_key_byte value)))
      (invalid_field field (portable_key maximum))

unfoldable pub validate_extension : Bytes → Result Error (Unit {0})
validate_extension value =
    guard
      (not (
        bytes_eq value []
        || ltb 32 (length value)
        || not (all (λ b. is_ascii_lowercase b || is_digit b) value)))
      (invalid_field "file_extension" (says "must be 1..=32 lowercase ASCII letters or digits"))

-- `matches_boundary`.
unfoldable pub matches_boundary : ImportProvenance → TrackerSource → Bool
matches_boundary top_level_hint announce = true
matches_boundary top_level_hint announce_list = true
matches_boundary magnet_hint magnet = true
matches_boundary (indexer_claim _) indexer = true
matches_boundary local_client local = true
matches_boundary _ _ = false

-- The last arm.
unfoldable pub outside_boundary : Result Error (Unit {0})
outside_boundary =
    err (invalid_field "observation" (says "value is not valid for its provenance boundary"))

module _ (x : Crates) where
  -- The arm of trackers.
  unfoldable pub validate_tracker :
      ImportProvenance → Bytes → TrackerSource → Result Error (Unit {0})
  validate_tracker provenance url source = do
    validate_tracker_url x url
    guard (matches_boundary provenance source)
        (invalid_field "tracker.source" (says "source does not match provenance boundary"))

  -- The arms of suggestions.
  unfoldable pub validate_suggestion : Bytes → Bytes → Result Error (Unit {0})
  validate_suggestion field value = do
    validate_key "suggestion.field" field 64
    validate_text "suggestion.value" value 1 512

  -- The `match` of `validate` on provenance and value, given the subject.
  unfoldable pub validate_value :
      TorrentRef → ImportProvenance → ObservationValue → Result Error (Unit {0})
  validate_value subject info_authenticated (title value) = validate_text "title" value 1 200
  validate_value subject magnet_hint (title value) = validate_text "title" value 1 200
  validate_value subject info_authenticated (privacy _) = ok tt
  validate_value subject info_authenticated (file_extension value) = validate_extension value
  validate_value subject info_authenticated (file_type _) = ok tt
  validate_value subject top_level_hint (comment value) =
      validate_text "top_level_hint" value 1 1024
  validate_value subject top_level_hint (creator value) =
      validate_text "top_level_hint" value 1 1024
  validate_value subject top_level_hint (creation_date unix_seconds) =
      if ltb 0 unix_seconds then ok tt else outside_boundary
  validate_value subject top_level_hint (tracker url source) =
      validate_tracker top_level_hint url source
  validate_value subject magnet_hint (tracker url source) = validate_tracker magnet_hint url source
  validate_value subject (indexer_claim issuer) (tracker url source) =
      validate_tracker (indexer_claim issuer) url source
  validate_value subject local_client (tracker url source) =
      validate_tracker local_client url source
  validate_value subject top_level_hint (relation _ target) =
      if not (same_torrent target subject) then ok tt else outside_boundary
  validate_value subject (indexer_claim provenance_issuer) (suggestion _ field value issuer) =
      if bytes_eq provenance_issuer.key issuer.key
      then validate_suggestion field value
      else outside_boundary
  validate_value subject local_client (suggestion q_bittorrent field value _) =
      validate_suggestion field value
  validate_value _ _ _ = outside_boundary

  unfoldable pub validate : ImportObservation → Result Error (Unit {0})
  validate o =
      if o.observed_at == 0
      then err (invalid_field "observed_at" (says "must be positive"))
      else validate_value o.subject o.provenance o.value

  unfoldable pub new :
      TorrentRef → ℕ → ImportProvenance → ObservationValue → Result Error ImportObservation
  new subject observed_at provenance value =
      let observation : ImportObservation = record {
        subject = subject;
        observed_at = observed_at;
        provenance = provenance;
        value = value;
      } in
      if observed_at == 0
      then err (invalid_field "observed_at" (says "must be positive"))
      else (validate observation >> ok observation)

-- `PublicCatalogImportWire` has the same fields.
pub record PublicCatalogImport : Type 0 where
  pub subject : TorrentRef
  pub observations : List ImportObservation

abbrev pub max_import_observations : ℕ
max_import_observations = 10_000

unfoldable pub ensure_public_catalog_eligible : Bool → Result Error (Unit {0})
ensure_public_catalog_eligible private = guard (not private) (
    invalid_field "torrent.private"
      (says "private torrents cannot be published to the public catalog"))

-- What the `filter_map` keeps.
unfoldable pub authenticated_privacy : ImportProvenance → ObservationValue → Option Bool
authenticated_privacy info_authenticated (privacy private) = some private
authenticated_privacy _ _ = none

-- The loop over the authenticated privacy bits, with `saw_public`.
unfoldable pub privacy_from : Bool → List ImportObservation → Result Error Bool
privacy_from saw_public [] = ok saw_public
privacy_from saw_public (o ∷ os) = elim (authenticated_privacy o.provenance o.value) [
  | none ↦ privacy_from saw_public os
  | some private ↦ ensure_public_catalog_eligible private >> privacy_from true os
]

unfoldable pub validate_import : PublicCatalogImport → Result Error (Unit {0})
validate_import i = do
  guard (not (length i.observations == 0 || ltb max_import_observations (length i.observations)))
      (invalid_field "observations" (expected_observations max_import_observations))
  guard
      (not (any (λ (o : ImportObservation). not (same_torrent o.subject i.subject)) i.observations))
      (invalid_field "observations" (says "all observations must describe the import subject"))
  saw_public ← privacy_from false i.observations
  guard saw_public (
      invalid_field "observations"
        (says "authenticated privacy metadata is required for public cataloging"))

unfoldable pub new_import : TorrentRef → List ImportObservation → Result Error PublicCatalogImport
new_import subject observations =
    let value : PublicCatalogImport = record { subject = subject; observations = observations } in
    do validate_import value; ok value
