-- ===== src/Engine/Adding.antt =====
-- crates/torrent-engine/src/engine.rs: `add_metainfo`, `add_magnet` and `add`. The librqbit session
-- is a parameter with a state of its own, which a call takes and returns.
use pubky_swarm.Base.{
  ℕ, Bool, true, false, not, Option, none, some, List, [], ◌∷◌, ◌++◌, any, if◌then◌else◌,
}
use pubky_swarm.Base.Bytes.{Bytes, bytes_eq}
use pubky_swarm.Base.Result.{Result, ok, err, ◌>>=◌, ◌>>◌, guard, ok_or}
use pubky_swarm.Engine.{
  Error, invalid_output_dir, invalid_magnet, invalid_metainfo, engine, unexpected_response,
  left_behind, EngineLimits, AddOptions, check_some_selected, check_info, check_size,
}
use pubky_swarm.Metainfo.{Info}

-- librqbit's `AddTorrent`, and the options that the engine sets.
pub data Source : Type 0 where
  from_url from_bytes : Bytes → Source

pub record AddTorrentOptions (Peer : Type 0) : Type 0 where
  pub list_only : Bool
  pub paused : Bool
  pub only_files : Option (List ℕ)
  pub overwrite : Bool
  pub output_folder : Option Bytes
  pub initial_peers : Option (List Peer)
  pub disable_trackers : Bool

-- What the program reads of a list-only response.
pub record Listed (Peer : Type 0) : Type 0 where
  pub info_hash : Bytes
  pub info : Info
  pub torrent_bytes : Bytes
  pub seen_peers : List Peer

pub data AddTorrentResponse (Peer Torrent : Type 0) : Type 0 where
  added already_managed : Torrent → AddTorrentResponse Peer Torrent
  list_only_response : Listed Peer → AddTorrentResponse Peer Torrent

pub record Session (S Peer Torrent : Type 0) : Type 0 where
  -- `none` is any error of librqbit.
  pub add_torrent :
      Source → AddTorrentOptions Peer → S → Option (AddTorrentResponse Peer Torrent) × S
  pub manages : Bytes → S → Bool
  pub torrent_from_bytes : Bytes → Option Info
  -- `Magnet::parse`, and the text of the v1 hash of what it reads.
  pub magnet_hash : Bytes → Option (Option Bytes)
  pub same_peer : Peer → Peer → Bool
  pub is_dir : Bytes → Bool
  pub to_string_lossy : Bytes → Bytes

module _ {S Peer Torrent : Type 0} (session : Session S Peer Torrent) (limits : EngineLimits) where
  -- `check?` before the rest.
  unfoldable pub after :
      Result Error (Unit {0}) → (S → Result Error Torrent × S) → S → Result Error Torrent × S
  after (err e) rest s = (err e, s)
  after (ok u) rest s = rest s

  unfoldable pub check_output_dir : Option Bytes → Result Error (Unit {0})
  check_output_dir none = ok tt
  check_output_dir (some dir) = guard (session.is_dir dir) (invalid_output_dir dir)

  unfoldable pub lossy_folder : Option Bytes → Option Bytes
  lossy_folder none = none
  lossy_folder (some dir) = some (session.to_string_lossy dir)

  unfoldable pub rqbit_options : AddOptions Peer → AddTorrentOptions Peer
  rqbit_options options = record {
    list_only = false;
    paused = options.paused;
    only_files = options.only_files;
    overwrite = options.overwrite;
    output_folder = lossy_folder options.output_dir;
    initial_peers = options.initial_peers;
    disable_trackers = options.disable_trackers;
  }

  unfoldable pub torrent_of : Option (AddTorrentResponse Peer Torrent) → Result Error Torrent
  torrent_of none = err engine
  torrent_of (some (added handle)) = ok handle
  torrent_of (some (already_managed handle)) = ok handle
  torrent_of (some (list_only_response listed)) = err unexpected_response

  unfoldable pub check_options : AddOptions Peer → Result Error (Unit {0})
  check_options options = do
    check_some_selected options.only_files
    check_output_dir options.output_dir

  unfoldable pub add : Source → AddOptions Peer → S → Result Error Torrent × S
  add source options = after (check_options options) λ s.
      let answer = session.add_torrent source (rqbit_options options) s in
      (torrent_of answer.0, answer.1)

  unfoldable pub check_metainfo : Bytes → AddOptions Peer → Result Error (Unit {0})
  check_metainfo metainfo options = do
    guard (not (bytes_eq metainfo [])) invalid_metainfo
    check_size limits metainfo
    info ← ok_or (session.torrent_from_bytes metainfo) invalid_metainfo
    check_info limits info options.only_files

  unfoldable pub add_metainfo : Bytes → AddOptions Peer → S → Result Error Torrent × S
  add_metainfo metainfo options =
      after (check_metainfo metainfo options) (add (from_bytes metainfo) options)

  unfoldable pub check_magnet : Bytes → AddOptions Peer → Result Error (Unit {0})
  check_magnet magnet options = do
    hash ← ok_or (session.magnet_hash magnet) invalid_magnet
    _ ← ok_or hash invalid_magnet
    check_some_selected options.only_files

  unfoldable pub stage1_options : AddOptions Peer → AddTorrentOptions Peer
  stage1_options options = record {
    list_only = true;
    paused = false;
    only_files = none;
    overwrite = false;
    output_folder = none;
    initial_peers = options.initial_peers;
    disable_trackers = options.disable_trackers;
  }

  unfoldable pub merge_peers : List Peer → List Peer → List Peer
  merge_peers merged [] = merged
  merge_peers merged (peer ∷ seen) =
      merge_peers (if any (session.same_peer peer) merged then merged else merged ++ peer ∷ []) seen

  unfoldable pub some_peers : List Peer → Option (List Peer)
  some_peers [] = none
  some_peers (peer ∷ rest) = some (peer ∷ rest)

  unfoldable pub or_no_peers : Option (List Peer) → List Peer
  or_no_peers none = []
  or_no_peers (some peers) = peers

  unfoldable pub stage2_options : AddOptions Peer → List Peer → AddOptions Peer
  stage2_options options seen = record {
    only_files = options.only_files;
    output_dir = options.output_dir;
    overwrite = options.overwrite;
    paused = options.paused;
    initial_peers = some_peers (merge_peers (or_no_peers options.initial_peers) seen);
    disable_trackers = options.disable_trackers;
  }

  unfoldable pub check_listed : Listed Peer → AddOptions Peer → Result Error (Unit {0})
  check_listed listed options = do
    check_size limits listed.torrent_bytes
    check_info limits listed.info options.only_files

  -- The rest of `add_magnet` after the magnet is resolved.
  unfoldable pub add_resolved :
      AddOptions Peer → Option (AddTorrentResponse Peer Torrent) → S → Result Error Torrent × S
  add_resolved options none s = (err engine, s)
  add_resolved options (some (added handle)) s = (err unexpected_response, s)
  add_resolved options (some (already_managed handle)) s = (err unexpected_response, s)
  add_resolved options (some (list_only_response listed)) s =
      after (guard (not (session.manages listed.info_hash s)) left_behind)
        (after (check_listed listed options)
          (add_metainfo listed.torrent_bytes (stage2_options options listed.seen_peers)))
        s

  unfoldable pub add_magnet : Bytes → AddOptions Peer → S → Result Error Torrent × S
  add_magnet magnet options = after (check_magnet magnet options) λ s.
      let answer = session.add_torrent (from_url magnet) (stage1_options options) s in
      add_resolved options answer.0 answer.1
