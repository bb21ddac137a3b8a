-- ===== src/Engine.antt =====
-- crates/torrent-engine/src/engine.rs and types.rs: the checks of `TorrentEngine` before anything
-- reaches librqbit.
pub mod Adding
pub mod Kept
use Prim.Native.String.{String}
use pubky_swarm.Base.{
  ℕ, zero, suc, ◌*◌, ◌^◌, Bool, true, false, not, ◌||◌, Option, none, some, List, [], ◌∷◌, any, leb,
  ltb, ◌==◌, length,
}
use pubky_swarm.Base.Bytes.{Bytes, codes, bytes_eq, contains}
use pubky_swarm.Base.Result.{Result, ok, err, ◌>>=◌, ◌>>◌, guard, ok_or, map_err}
use pubky_swarm.Metainfo.{MetainfoLimits, Info}
use pubky_swarm.Metainfo.Validate.{validate_metainfo, count_files}

-- The errors of the checks and of adding; the texts of librqbit's errors are left out.
pub data Error : Type 0 where
  invalid_piece_length : (value : ℕ) (reason : String) → Error
  invalid_torrent_name : Bytes → Error
  invalid_output_dir : Bytes → Error
  invalid_magnet invalid_metainfo : Error
  metainfo_bytes_exceeded : (value max : ℕ) → Error
  -- An error of `validate_metainfo`.
  unsafe_metainfo : pubky_swarm.Metainfo.Error → Error
  empty_file_selection : Error
  file_index_out_of_range : (index file_count : ℕ) → Error
  engine : Error
  unexpected_response left_behind : Error

abbrev pub min_piece_length : ℕ
min_piece_length = 16 * 1024

abbrev pub max_piece_length : ℕ
max_piece_length = 16 * 1024 * 1024

-- `n.is_power_of_two()` of a u32: `n` is `2 ^ k` for a `k` below `bits`.
unfoldable pub is_power_of_two : (bits n : ℕ) → Bool
is_power_of_two zero n = false
is_power_of_two (suc k) n = n == 2 ^ k || is_power_of_two k n

unfoldable pub validate_piece_length : ℕ → Result Error (Unit {0})
validate_piece_length n = do
  guard (is_power_of_two 32 n) (invalid_piece_length n "must be a power of two")
  guard (not (ltb n min_piece_length)) (invalid_piece_length n "below the minimum of 16 KiB")
  guard (not (ltb max_piece_length n)) (invalid_piece_length n "above the maximum of 16 MiB")

unfoldable pub validate_torrent_name : Bytes → Result Error (Unit {0})
validate_torrent_name name =
    guard
      (not (
        bytes_eq name []
        || (contains b'/' name || contains b'\\' name)
        || bytes_eq name (codes ".")
        || bytes_eq name (codes "..")))
      (invalid_torrent_name name)

-- The limits of the configuration: those of `validate_metainfo`, and the bytes of the metainfo.
pub record EngineLimits : Type 0 where
  pub max_metainfo_bytes : ℕ
  pub metainfo : MetainfoLimits

pub record AddOptions (Peer : Type 0) : Type 0 where
  pub only_files : Option (List ℕ)
  pub output_dir : Option Bytes
  pub overwrite : Bool
  pub paused : Bool
  pub initial_peers : Option (List Peer)
  pub disable_trackers : Bool

unfoldable pub check_indices : ℕ → List ℕ → Result Error (Unit {0})
check_indices count [] = ok tt
check_indices count (index ∷ rest) = do
  guard (ltb index count) (file_index_out_of_range index count)
  check_indices count rest

unfoldable pub check_selection : ℕ → Option (List ℕ) → Result Error (Unit {0})
check_selection count none = ok tt
check_selection count (some indices) = check_indices count indices

unfoldable pub check_some_selected : Option (List ℕ) → Result Error (Unit {0})
check_some_selected none = ok tt
check_some_selected (some []) = err empty_file_selection
check_some_selected (some (index ∷ rest)) = ok tt

-- The checks of parsed metainfo, with the number of its bytes.
unfoldable pub check_info : EngineLimits → Info → Option (List ℕ) → Result Error (Unit {0})
check_info limits info only_files = do
  map_err unsafe_metainfo (validate_metainfo info (some limits.metainfo))
  check_selection (count_files info) only_files

unfoldable pub check_size : EngineLimits → Bytes → Result Error (Unit {0})
check_size limits metainfo =
    guard (leb (length metainfo) limits.max_metainfo_bytes)
      (metainfo_bytes_exceeded (length metainfo) limits.max_metainfo_bytes)
