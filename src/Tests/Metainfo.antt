-- ===== src/Tests/Metainfo.antt =====
-- The theorems on torrent metainfo, at two files.
use pubky_swarm.Base.Bytes.{upper_byte}
use pubky_swarm.Base.Utf8.{decode_utf8}
use pubky_swarm.Metainfo.{
  file_entries, is_ascii_control, is_drive_prefix, not_reserved, within_component,
}
use pubky_swarm.Metainfo.Validate.{
  path_length, validate_components, validate_entries, validate_entry, within_files, within_path,
  within_total,
}
use pubky_swarm.Base.Bytes.{bytes_eq, bytes_lt, contains}
use pubky_swarm.Base.Utf8.{is_utf8}
use pubky_swarm.Metainfo.{eq_ignore_ascii_case, first_three, is_serial, validate_component}
use pubky_swarm.Metainfo.Validate.{is_ancestor}
use pubky_swarm.Protocol.Portable.{ends_with}
use pubky_swarm.Base.{ℕ, zero, suc, ◌≡◌, ◌↔◌, refl, true, false, Option, none, some, List, [], ◌∷◌}
use pubky_swarm.Base.Bytes.{Bytes, codes}
use pubky_swarm.Base.Paths.{first_piece}
use pubky_swarm.Base.Result.{ok, err}
use pubky_swarm.Base.Sort.{sort}
use pubky_swarm.Metainfo.{MetainfoLimits, Info, InfoFile, panic, is_windows_reserved_name}
use pubky_swarm.Metainfo.Validate.{check_neighbours, path_lt, validate_metainfo}
use pubky_swarm.Metainfo.Panics.{SplitsCharacter, is_windows_reserved_name_panics_iff}
use pubky_swarm.Metainfo.Safe.{IsSafe, validate_metainfo-IsSafe}

abbrev limits : MetainfoLimits
limits = record {
  max_files = 65_536;
  max_total_bytes = 1_099_511_627_776;
  max_path_components = 64;
  max_component_bytes = 255;
  max_path_bytes = 4096;
}

abbrev file_at : List Bytes → InfoFile
file_at path = record { path = path; length = 3; symlink_path = none }

abbrev info : Info
info = record {
  name = some (codes "t");
  files = some (file_at (codes "b" ∷ codes "c" ∷ []) ∷ file_at (codes "a" ∷ []) ∷ []);
  length = none;
  symlink_path = none;
}

info-valid : validate_metainfo info (some limits) ≡ ok tt
unfolding validate_metainfo validate_component bytes_eq is_utf8 contains ends_with
    is_windows_reserved_name eq_ignore_ascii_case first_piece is_serial file_entries
    validate_entries validate_entry validate_components check_neighbours sort bytes_lt upper_byte
    pubky_swarm.Base.Sort.insert decode_utf8 is_ancestor path_length within_files within_path
    within_total first_three is_ascii_control is_drive_prefix not_reserved within_component
info-valid = refl

validate_metainfo-IsSafe_example : IsSafe info (some limits)
validate_metainfo-IsSafe_example = validate_metainfo-IsSafe info (some limits) info-valid

abbrev paths : List (List Bytes)
paths = (codes "b" ∷ codes "c" ∷ []) ∷ (codes "a" ∷ []) ∷ []

neighbours_ok : check_neighbours (sort path_lt paths) ≡ ok tt
unfolding check_neighbours sort bytes_lt bytes_eq is_ancestor
neighbours_ok = refl

-- The UTF-8 text of two letters `a` and an `é`.
abbrev accented : Bytes
accented = 97 ∷ 97 ∷ 195 ∷ 169 ∷ []

is_windows_reserved_name_panics_iff_example :
    (is_windows_reserved_name accented ≡ none) ↔ SplitsCharacter (first_piece b'.' accented)
is_windows_reserved_name_panics_iff_example = is_windows_reserved_name_panics_iff accented

-- Metainfo of that name panics.
accented_panics :
    validate_metainfo
      (record { name = some accented; files = none; length = some 1; symlink_path = none })
      (some limits)
    ≡ err panic
unfolding validate_metainfo validate_component bytes_eq is_utf8 contains ends_with
    is_windows_reserved_name eq_ignore_ascii_case first_piece is_serial first_three
accented_panics = refl
