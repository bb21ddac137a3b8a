-- ===== src/Tests/Release.antt =====
-- The theorems on releases, at a release of two files.
use pubky_swarm.Base.Bytes.{
  contains, lower_byte, starts_with, strip_prefix, to_be_bytes, upper_byte,
}
use pubky_swarm.Base.Paths.{components, first_piece, is_absolute, join, split}
use pubky_swarm.Base.Sort.{sort}
use pubky_swarm.Base.Utf8.{chars, decode_utf8, has_control, is_blank, is_control, is_whitespace}
use pubky_swarm.Protocol.Ids.{release_domain}
use pubky_swarm.Protocol.Portable.{
  ends_with, is_unportable, is_windows_reserved_name, tags_from, validate_portable_path,
  validate_text,
}
use pubky_swarm.Protocol.Release.{
  check_neighbours, is_refused_tracker, release_schema, sum_files, validate_each, validate_torrent,
  validate_tracker_url, validate_trackers,
}
use pubky_swarm.Base.Bytes.{bytes_eq, bytes_lt}
use pubky_swarm.Base.{
  ℕ, zero, suc, ◌≡◌, ◌≤◌, ◌↔◌, refl, true, false, Option, none, some, List, [], ◌∷◌, length, All,
}
use pubky_swarm.Base.Bytes.{Bytes, codes}
use pubky_swarm.Base.Result.{ok}
use pubky_swarm.Protocol.Ids.{release_id_derive}
use pubky_swarm.Protocol.Portable.{validate_tags, is_tag}
use pubky_swarm.Protocol.Release.{TorrentV1, ReleaseV1, new, validate, try_from_wire}
use pubky_swarm.Protocol.Release.Valid.{
  IsRelease, validate-IsRelease, derived_id, new-try_from_wire,
}
use pubky_swarm.Protocol.Release.Exact.{IsSeparate, try_from_wire_iff}
use pubky_swarm.Tests.Hex.{crates}
use pubky_swarm.Tests.Sample.{publisher, info_hash}

abbrev torrent : TorrentV1
torrent = record {
  info_hash = info_hash;
  size = 7;
  files = record { path = codes "b"; size = 3 } ∷ record { path = codes "a/c"; size = 4 } ∷ [];
  trackers = codes "https://t/" ∷ [];
}

abbrev tags : List Bytes
tags = codes "audio" ∷ codes "cc0" ∷ []

abbrev release : ReleaseV1
release = record {
  schema = codes "pubky.swarm/release";
  version = 1;
  id = release_id_derive crates publisher 5 info_hash;
  publisher = publisher;
  created_at = 5;
  title = codes "Title";
  description = [];
  torrent = torrent;
  tags = tags;
}

tags_ok : validate_tags tags ≡ ok tt
unfolding validate_tags is_tag bytes_eq bytes_lt
tags_ok = refl

release_valid : validate crates release ≡ ok tt
unfolding validate bytes_eq release_schema validate_text chars is_blank has_control validate_torrent
    sum_files validate_portable_path is_absolute components join is_unportable contains ends_with
    is_windows_reserved_name bytes_lt lower_byte starts_with strip_prefix upper_byte first_piece
    split pubky_swarm.Base.Sort.insert sort decode_utf8 is_control is_whitespace is_tag tags_from
    validate_tags check_neighbours is_refused_tracker validate_each validate_tracker_url
    validate_trackers
release_valid = refl

validate-IsRelease_example : IsRelease crates release
validate-IsRelease_example = validate-IsRelease crates release release_valid

try_from_wire_iff_example : (try_from_wire crates release ≡ ok release) ↔ (
    (release ≡ release)
    × IsRelease crates release
    × IsSeparate release.torrent
    × (release.id ≡ derived_id crates release))
try_from_wire_iff_example = try_from_wire_iff crates release release

release_built : new crates publisher 5 (codes "Title") [] torrent tags ≡ ok release
unfolding new validate bytes_eq release_schema validate_text chars is_blank has_control
    validate_torrent sum_files validate_portable_path is_absolute components join is_unportable
    contains ends_with is_windows_reserved_name bytes_lt lower_byte starts_with strip_prefix
    to_be_bytes upper_byte first_piece split pubky_swarm.Base.Sort.insert sort decode_utf8
    is_control is_whitespace release_domain release_id_derive is_tag tags_from validate_tags
    check_neighbours is_refused_tracker validate_each validate_tracker_url validate_trackers
release_built = refl

new-try_from_wire_example :
    (validate crates release ≡ ok tt)
    × (release.publisher ≡ publisher)
    × (release.created_at ≡ 5)
    × (release.title ≡ codes "Title")
    × (release.description ≡ [])
    × (release.torrent ≡ torrent)
    × (release.tags ≡ tags)
    × (release.id ≡ derived_id crates release)
    × (try_from_wire crates release ≡ ok release)
new-try_from_wire_example =
    new-try_from_wire crates publisher 5 (codes "Title") [] torrent tags release release_built
