-- ===== src/Protocol/Import/Sources.antt =====
-- crates/swarm-protocol/src/catalog.rs: the functions that map metadata to observations.
use pubky_swarm.Base.{ℕ, Bool, Option, none, some, List, [], ◌∷◌, map, ◌==◌, if◌then◌else◌, any}
use pubky_swarm.Base.Bytes.{Bytes, codes, bytes_eq, lower_byte}
use pubky_swarm.Base.Result.{Result, ok, err, ◌>>=◌, ◌>>◌}
use pubky_swarm.Protocol.Crates.{Crates}
use pubky_swarm.Protocol.Error.{Error, invalid_field, says}
use pubky_swarm.Protocol.Ids.{PublisherId}
use pubky_swarm.Protocol.Portable.{validate_portable_path}
use pubky_swarm.Protocol.Import.{
  TorrentRef, ImportProvenance, info_authenticated, top_level_hint, magnet_hint, indexer_claim,
  local_client, DerivedContentType, audio, video, image, document, archive, software, other,
  TrackerSource, announce, announce_list, magnet, indexer, local, RelationKind, SuggestionNamespace,
  kt, torznab, q_bittorrent, title, privacy, file_extension, file_type, comment, creator,
  creation_date, tracker, relation, suggestion, ImportObservation, validate_extension, new,
}

-- `s.rsplit_once(c)` at a byte.
unfoldable pub rsplit_once : ℕ → Bytes → Option (Bytes × Bytes)
rsplit_once c [] = none
rsplit_once c (d ∷ s) = elim (rsplit_once c s) [
  | some (a, b) ↦ some (d ∷ a, b)
  | none ↦ if d == c then some ([], s) else none
]

-- `s.rsplit(c).next()`, which is there always.
unfoldable pub last_piece : ℕ → Bytes → Bytes
last_piece c s = elim (rsplit_once c s) [ none ↦ s | some (_, b) ↦ b ]

-- The extension of a path, in lower case, when there is one.
unfoldable pub extension_of : Bytes → Option Bytes
extension_of path = elim (rsplit_once b'.' (last_piece b'/' path)) [
  | none ↦ none
  | some (_, extension) ↦ if bytes_eq extension [] then none else some (map lower_byte extension)
]

is_one_of : List Bytes → Bytes → Bool
is_one_of names name = any (bytes_eq name) names

unfoldable pub content_type_for_extension : Bytes → DerivedContentType
unfolding is_one_of
content_type_for_extension e =
    if is_one_of
      (codes "aac"
        ∷ codes "flac"
        ∷ codes "m4a"
        ∷ codes "mp3"
        ∷ codes "ogg"
        ∷ codes "opus"
        ∷ codes "wav"
        ∷ [])
      e
    then audio
    else if is_one_of
        (codes "avi" ∷ codes "m4v" ∷ codes "mkv" ∷ codes "mov" ∷ codes "mp4" ∷ codes "webm" ∷ []) e
    then video
    else if is_one_of
        (codes "avif"
          ∷ codes "gif"
          ∷ codes "heic"
          ∷ codes "jpeg"
          ∷ codes "jpg"
          ∷ codes "png"
          ∷ codes "svg"
          ∷ codes "webp"
          ∷ [])
        e
    then image
    else if is_one_of
        (codes "csv"
          ∷ codes "epub"
          ∷ codes "html"
          ∷ codes "md"
          ∷ codes "pdf"
          ∷ codes "rtf"
          ∷ codes "txt"
          ∷ [])
        e
    then document
    else if is_one_of
        (codes "7z"
          ∷ codes "bz2"
          ∷ codes "gz"
          ∷ codes "rar"
          ∷ codes "tar"
          ∷ codes "xz"
          ∷ codes "zip"
          ∷ [])
        e
    then archive
    else if is_one_of
        (codes "apk"
          ∷ codes "appimage"
          ∷ codes "deb"
          ∷ codes "dmg"
          ∷ codes "exe"
          ∷ codes "msi"
          ∷ codes "pkg"
          ∷ codes "rpm"
          ∷ [])
        e
    then software
    else other

-- The provenance of a tracker's source; an indexer must be named.
unfoldable pub tracker_provenance :
    TrackerSource → Option PublisherId → Result Error ImportProvenance
tracker_provenance announce _ = ok top_level_hint
tracker_provenance announce_list _ = ok top_level_hint
tracker_provenance magnet _ = ok magnet_hint
tracker_provenance indexer (some issuer) = ok (indexer_claim issuer)
tracker_provenance indexer none =
    err (invalid_field "tracker.indexer" (says "indexer source requires an issuer"))
tracker_provenance local _ = ok local_client

unfoldable pub suggestion_provenance : SuggestionNamespace → PublisherId → ImportProvenance
suggestion_provenance q_bittorrent issuer = local_client
suggestion_provenance kt issuer = indexer_claim issuer
suggestion_provenance torznab issuer = indexer_claim issuer

module _ (x : Crates) (subject : TorrentRef) (observed_at : ℕ) where
  unfoldable pub map_info_name : Bytes → Result Error ImportObservation
  map_info_name name = new x subject observed_at info_authenticated (title name)

  unfoldable pub map_magnet_dn : Bytes → Result Error ImportObservation
  map_magnet_dn display_name = new x subject observed_at magnet_hint (title display_name)

  unfoldable pub map_private : Bool → Result Error ImportObservation
  map_private private = new x subject observed_at info_authenticated (privacy private)

  unfoldable pub derive_observations : Option Bytes → Result Error (List ImportObservation)
  derive_observations none = ok []
  derive_observations (some extension) = do
    validate_extension extension
    named ← new x subject observed_at info_authenticated (file_extension extension)
    typed ←
        new x subject observed_at info_authenticated
          (file_type (content_type_for_extension extension))
    ok (named ∷ typed ∷ [])

  unfoldable pub derive_file_observations : Bytes → Result Error (List ImportObservation)
  derive_file_observations path =
      validate_portable_path path >> derive_observations (extension_of path)

  unfoldable pub map_top_level_comment : Bytes → Result Error ImportObservation
  map_top_level_comment value = new x subject observed_at top_level_hint (comment value)

  unfoldable pub map_top_level_creator : Bytes → Result Error ImportObservation
  map_top_level_creator value = new x subject observed_at top_level_hint (creator value)

  unfoldable pub map_top_level_creation_date : ℕ → Result Error ImportObservation
  map_top_level_creation_date unix_seconds =
      new x subject observed_at top_level_hint (creation_date unix_seconds)

  unfoldable pub map_tracker :
      Bytes → TrackerSource → Option PublisherId → Result Error ImportObservation
  map_tracker url source issuer = do
    provenance ← tracker_provenance source issuer
    new x subject observed_at provenance (tracker url source)

  unfoldable pub map_bep38_relation : RelationKind → TorrentRef → Result Error ImportObservation
  map_bep38_relation kind target = new x subject observed_at top_level_hint (relation kind target)

  unfoldable pub map_issuer_suggestion :
      PublisherId → SuggestionNamespace → Bytes → Bytes → Result Error ImportObservation
  map_issuer_suggestion issuer namespace field value =
      new x subject observed_at (suggestion_provenance namespace issuer)
        (suggestion namespace field value issuer)
