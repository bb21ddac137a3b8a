-- ===== src/Tests/Engine.antt =====
-- The theorem on the torrent engine, at a session that remembers what was added; and piece lengths.
use pubky_swarm.Base.Bytes.{bytes_lt, contains, upper_byte}
use pubky_swarm.Base.Paths.{first_piece}
use pubky_swarm.Base.Sort.{sort}
use pubky_swarm.Base.Utf8.{decode_utf8, is_utf8}
use pubky_swarm.Engine.{check_indices, check_info, check_selection, check_size, check_some_selected}
use pubky_swarm.Engine.Adding.{
  add, add_metainfo, add_resolved, after, check_listed, check_magnet, check_metainfo, check_options,
  check_output_dir, lossy_folder, merge_peers, or_no_peers, rqbit_options, some_peers,
  stage1_options, stage2_options, torrent_of,
}
use pubky_swarm.Metainfo.{
  eq_ignore_ascii_case, file_entries, first_three, is_ascii_control, is_drive_prefix, is_serial,
  is_windows_reserved_name, not_reserved, validate_component, within_component,
}
use pubky_swarm.Metainfo.Validate.{
  check_neighbours, count_files, is_ancestor, path_length, validate_components, validate_entries,
  validate_entry, validate_metainfo, within_files, within_path, within_total,
}
use pubky_swarm.Protocol.Portable.{ends_with}
use pubky_swarm.Base.{
  ℕ, ◌≡◌, refl, Bool, true, false, Option, none, some, List, [], ◌∷◌, All, if◌then◌else◌,
}
use pubky_swarm.Base.Bytes.{Bytes, codes, bytes_eq}
use pubky_swarm.Base.Result.{err}
use pubky_swarm.Engine.{
  EngineLimits, AddOptions, validate_piece_length, is_power_of_two, invalid_piece_length,
}
use pubky_swarm.Engine.Adding.{
  Source, from_url, from_bytes, AddTorrentResponse, added, list_only_response, Session, add_magnet,
}
use pubky_swarm.Engine.Kept.{Call, metainfo_added, magnet_added, IsAdmitted, run, run-keeps}
use pubky_swarm.Metainfo.{Info}

abbrev limits : EngineLimits
limits = record {
  max_metainfo_bytes = 100;
  metainfo = record {
    max_files = 10;
    max_total_bytes = 1000;
    max_path_components = 4;
    max_component_bytes = 255;
    max_path_bytes = 400;
  };
}

abbrev info : Info
info = record { name = some (codes "t"); files = none; length = some 3; symlink_path = none }

abbrev parse : Bytes → Option Info
parse metainfo = if bytes_eq metainfo (codes "meta") then some info else none

abbrev State : Type 0
State = List (Bytes × Option (List ℕ))

abbrev answer : Bool → Bytes → Option (List ℕ) → State → Option (AddTorrentResponse ℕ ℕ) × State
answer true metainfo only_files s = (
  some (
      list_only_response record {
        info_hash = codes "hash";
        info = info;
        torrent_bytes = codes "meta";
        seen_peers = 1 ∷ [];
      }),
  s,
)
answer false metainfo only_files s = (some (added 0), (metainfo, only_files) ∷ s)

abbrev bytes_of : Source → Bytes
bytes_of (from_url url) = url
bytes_of (from_bytes metainfo) = metainfo

abbrev session : Session State ℕ ℕ
session = record {
  add_torrent = λ source options s. answer options.list_only (bytes_of source) options.only_files s;
  manages = λ _ _. false;
  torrent_from_bytes = parse;
  magnet_hash = λ _. some (some (codes "hash"));
  same_peer = λ _ _. true;
  is_dir = λ _. true;
  to_string_lossy = λ dir. dir;
}

abbrev options : AddOptions ℕ
options = record {
  only_files = some (0 ∷ []);
  output_dir = none;
  overwrite = false;
  paused = false;
  initial_peers = none;
  disable_trackers = false;
}

abbrev Admitted : State → Type 0
Admitted = All (λ entry. IsAdmitted parse limits entry.0 entry.1)

listing_keeps :
    (listing : Bool) (metainfo : Bytes) (only_files : Option (List ℕ)) (s : State)
    → listing ≡ true
    → Admitted s
    → Admitted (answer listing metainfo only_files s).1
listing_keeps true metainfo only_files s h i = i
listing_keeps false metainfo only_files s h i = cc

adding_keeps :
    (listing : Bool) (metainfo : Bytes) (only_files : Option (List ℕ)) (s : State)
    → IsAdmitted parse limits metainfo only_files
    → Admitted s
    → Admitted (answer listing metainfo only_files s).1
adding_keeps true metainfo only_files s a i = i
adding_keeps false metainfo only_files s a i = (a, i)

abbrev calls : List (Call ℕ)
calls = magnet_added (codes "magnet") options ∷ metainfo_added (codes "other") options ∷ []

run-keeps_example : Admitted (run session limits calls [])
run-keeps_example =
    run-keeps session limits Admitted
      (λ source options. listing_keeps options.list_only (bytes_of source) options.only_files)
      (λ metainfo options. adding_keeps options.list_only metainfo options.only_files) calls [] tt

added_once : run session limits calls [] ≡ (codes "meta", some (0 ∷ [])) ∷ []
unfolding run add_metainfo after check_metainfo bytes_eq check_size add_magnet check_magnet
    check_some_selected add_resolved stage1_options check_listed check_info validate_metainfo
    validate_component is_utf8 contains ends_with bytes_lt upper_byte first_piece
    pubky_swarm.Base.Sort.insert sort decode_utf8 add check_options check_output_dir lossy_folder
    merge_peers or_no_peers rqbit_options some_peers stage2_options torrent_of check_indices
    check_selection check_neighbours count_files is_ancestor path_length validate_components
    validate_entries validate_entry within_files within_path within_total eq_ignore_ascii_case
    file_entries first_three is_ascii_control is_drive_prefix is_serial is_windows_reserved_name
    not_reserved within_component
added_once = refl

too_small :
    validate_piece_length 8192 ≡ err (invalid_piece_length 8192 "below the minimum of 16 KiB")
unfolding validate_piece_length is_power_of_two
too_small = refl
