-- ===== src/Tests/Import.antt =====
-- The theorems on import observations, at a public torrent with a title.
use pubky_swarm.Base.Bytes.{contains, lower_byte, strip_prefix, upper_byte}
use pubky_swarm.Base.Paths.{components, first_piece, is_absolute, join, split}
use pubky_swarm.Base.Utf8.{decode_utf8, is_control, is_whitespace}
use pubky_swarm.Protocol.Import.{
  matches_boundary, outside_boundary, validate_extension, validate_key, validate_suggestion,
  validate_tracker,
}
use pubky_swarm.Protocol.Import.Sources.{
  content_type_for_extension, derive_observations, extension_of, last_piece, rsplit_once,
}
use pubky_swarm.Protocol.Portable.{ends_with, is_unportable, is_windows_reserved_name}
use pubky_swarm.Protocol.Release.{is_refused_tracker}
use pubky_swarm.Base.Bytes.{bytes_eq}
use pubky_swarm.Base.Utf8.{chars, has_control, is_blank}
use pubky_swarm.Protocol.Import.{
  authenticated_privacy, ensure_public_catalog_eligible, privacy_from, same_torrent, validate_value,
}
use pubky_swarm.Protocol.Portable.{validate_text}
use pubky_swarm.Base.{◌≡◌, ◌↔◌, ◌<◌, refl, false, [], ◌∷◌}
use pubky_swarm.Base.Bytes.{codes}
use pubky_swarm.Base.Result.{ok}
use pubky_swarm.Protocol.Import.{
  btih, ImportProvenance, info_authenticated, magnet_hint, ObservationValue, title, privacy,
  ImportObservation, PublicCatalogImport, validate, validate_import,
}
use pubky_swarm.Protocol.Import.Boundary.{Allowed, validate-Allowed}
use pubky_swarm.Protocol.Import.Public.{IsPublic, validate_import_iff}
use pubky_swarm.Base.{none, map}
use pubky_swarm.Protocol.Portable.{validate_portable_path}
use pubky_swarm.Protocol.Release.{validate_tracker_url}
use pubky_swarm.Protocol.Import.{
  magnet, file_extension, file_type, audio, video, image, document, archive, software, other,
}
use pubky_swarm.Protocol.Import.Files.{Derives, derive_file_observations_iff}
use pubky_swarm.Protocol.Import.Sources.{derive_file_observations, map_tracker}
use pubky_swarm.Protocol.Import.Derived.{HasIssuer, map_tracker_iff}
use pubky_swarm.Tests.Hex.{crates}
use pubky_swarm.Tests.Sample.{info_hash}

abbrev observe : ImportProvenance → ObservationValue → ImportObservation
observe provenance value = record {
  subject = btih info_hash;
  observed_at = 5;
  provenance = provenance;
  value = value;
}

abbrev named : ImportObservation
named = observe magnet_hint (title (codes "A title"))

abbrev catalog_import : PublicCatalogImport
catalog_import = record {
  subject = btih info_hash;
  observations = named ∷ observe info_authenticated (privacy false) ∷ [];
}

import_public : validate_import catalog_import ≡ ok tt
unfolding validate_import same_torrent bytes_eq privacy_from authenticated_privacy
    ensure_public_catalog_eligible
import_public = refl

validate_import_iff_example : (validate_import catalog_import ≡ ok tt) ↔ IsPublic catalog_import
validate_import_iff_example = validate_import_iff catalog_import

named_ok : validate crates named ≡ ok tt
unfolding validate validate_value validate_text chars is_blank has_control
named_ok = refl

validate-Allowed_example :
    (0 < 5) × Allowed crates (btih info_hash) magnet_hint (title (codes "A title"))
validate-Allowed_example = validate-Allowed crates named named_ok

mapped :
    derive_file_observations crates (btih info_hash) 5 (codes "a/b.MP3")
    ≡ ok (
        observe info_authenticated (file_extension (codes "mp3"))
        ∷ observe info_authenticated (file_type audio)
        ∷ [])
unfolding derive_file_observations validate_portable_path bytes_eq is_absolute components join
    is_unportable contains has_control ends_with is_windows_reserved_name derive_observations
    extension_of rsplit_once last_piece validate_extension lower_byte strip_prefix upper_byte
    first_piece split chars decode_utf8 is_blank is_control is_whitespace content_type_for_extension
    matches_boundary pubky_swarm.Protocol.Import.new outside_boundary same_torrent validate
    validate_key validate_suggestion validate_tracker validate_value validate_text
    is_refused_tracker validate_tracker_url
mapped = refl

derive_file_observations_iff_example :
    (derive_file_observations crates (btih info_hash) 5 (codes "a/b.MP3")
      ≡ ok (
          observe info_authenticated (file_extension (codes "mp3"))
          ∷ observe info_authenticated (file_type audio)
          ∷ []))
    ↔ ((validate_portable_path (codes "a/b.MP3") ≡ ok tt)
        × Derives crates (btih info_hash) 5 (codes "a/b.MP3") (
            observe info_authenticated (file_extension (codes "mp3"))
            ∷ observe info_authenticated (file_type audio)
            ∷ []))
derive_file_observations_iff_example =
    derive_file_observations_iff crates (btih info_hash) 5 (codes "a/b.MP3") (
      observe info_authenticated (file_extension (codes "mp3"))
      ∷ observe info_authenticated (file_type audio)
      ∷ [])

content_types :
    map content_type_for_extension (
      codes "flac"
      ∷ codes "webm"
      ∷ codes "png"
      ∷ codes "pdf"
      ∷ codes "zip"
      ∷ codes "exe"
      ∷ codes "bin"
      ∷ [])
    ≡ audio ∷ video ∷ image ∷ document ∷ archive ∷ software ∷ other ∷ []
unfolding content_type_for_extension bytes_eq
content_types = refl

map_tracker_iff_example :
    ((o : ImportObservation) × (map_tracker crates (btih info_hash) 5 (codes "udp://t/") magnet none
        ≡ ok o))
    ↔ ((0 < 5)
        × (validate_tracker_url crates (codes "udp://t/") ≡ ok tt)
        × HasIssuer crates (btih info_hash) 5 magnet none)
map_tracker_iff_example = map_tracker_iff crates (btih info_hash) 5 (codes "udp://t/") magnet none
