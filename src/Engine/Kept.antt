-- ===== src/Engine/Kept.antt =====
-- What of the metainfo reaches the session, over any calls of `add_metainfo` and `add_magnet`.
use pubky_swarm.Base.{
  ℕ, ◌≡◌, ◌<◌, ◌≤◌, ltb, leb→le, refl, true, Option, none, some, List, [], ◌∷◌, All, length, ltb→lt,
}
use pubky_swarm.Base.Bytes.{Bytes}
use pubky_swarm.Base.Result.{Result, ok, err, >>=-eq-ok, >>-eq-ok, guard-eq-ok, ok_or, map_err}
use pubky_swarm.Engine.{
  Error, unsafe_metainfo, EngineLimits, AddOptions, check_info, check_size, check_selection,
  check_indices,
}
use pubky_swarm.Engine.Adding.{
  Source, from_url, from_bytes, AddTorrentOptions, AddTorrentResponse, added, already_managed,
  list_only_response, Session, after, add, add_metainfo, add_magnet, add_resolved, rqbit_options,
  stage1_options, check_metainfo,
}
use pubky_swarm.Metainfo.{Info}
use pubky_swarm.Metainfo.Validate.{count_files}
use pubky_swarm.Metainfo.Safe.{IsSafe, validate_metainfo-IsSafe}

-- The selected files are files of the torrent.
unfoldable pub IsSelection : ℕ → Option (List ℕ) → Type 0
IsSelection count none = Unit
IsSelection count (some indices) = All (λ index. index < count) indices

check_indices-All :
    (count : ℕ) (indices : List ℕ)
    → check_indices count indices ≡ ok tt
    → All (λ index. index < count) indices
unfolding check_indices
check_indices-All count [] h = tt
check_indices-All count (index ∷ rest) h =
    let (small, k) = guard-eq-ok (ltb index count) _ _ h in
    (ltb→lt index count small, check_indices-All count rest k)

check_selection-IsSelection :
    (count : ℕ) (only_files : Option (List ℕ))
    → check_selection count only_files ≡ ok tt
    → IsSelection count only_files
unfolding check_selection IsSelection
check_selection-IsSelection count none h = tt
check_selection-IsSelection count (some indices) h = check_indices-All count indices h

map_err-eq-ok :
    {E F : Type 0} (f : E → F) (m : Result E (Unit {0})) → map_err f m ≡ ok tt → m ≡ ok tt
map_err-eq-ok f (ok tt) h = refl
map_err-eq-ok f (err e) h = cc

ok_or-eq-ok :
    {E A : Type 0} (found : Option A) (e : E) (a : A) → ok_or found e ≡ ok a → found ≡ some a
ok_or-eq-ok (some b) e a h = cc
ok_or-eq-ok none e a h = cc

-- What the session is given: the bytes parse as safe metainfo of a bounded size.
pub record IsAdmitted (parse : Bytes → Option Info) (limits : EngineLimits) (metainfo : Bytes)
    (only_files : Option (List ℕ)) : Type 0 where
  pub info : Info
  pub parsed : parse metainfo ≡ some info
  pub small : length metainfo ≤ limits.max_metainfo_bytes
  pub safe : IsSafe info (some limits.metainfo)
  pub selected : IsSelection (count_files info) only_files

pub data Call (Peer : Type 0) : Type 0 where
  metainfo_added magnet_added : Bytes → AddOptions Peer → Call Peer

module _ {S Peer Torrent : Type 0} (session : Session S Peer Torrent) (limits : EngineLimits) where
  check_metainfo-IsAdmitted :
      (metainfo : Bytes) (options : AddOptions Peer)
      → check_metainfo session limits metainfo options ≡ ok tt
      → IsAdmitted session.torrent_from_bytes limits metainfo options.only_files
  unfolding check_metainfo check_size check_info
  check_metainfo-IsAdmitted metainfo options h =
      let (_, h₁) = guard-eq-ok _ _ _ h in
      let (size, h₂) = guard-eq-ok _ _ _ h₁ in
      let (info, read, h₃) = >>=-eq-ok (ok_or (session.torrent_from_bytes metainfo) _) _ h₂ in
      let (valid, chosen) = >>-eq-ok (map_err unsafe_metainfo _) _ h₃ in
      record {
        info = info;
        parsed = ok_or-eq-ok _ _ info read;
        small = leb→le _ _ size;
        safe =
            validate_metainfo-IsSafe info (some limits.metainfo)
              (map_err-eq-ok unsafe_metainfo _ valid);
        selected = check_selection-IsSelection (count_files info) options.only_files chosen;
      }

  unfoldable pub run : List (Call Peer) → S → S
  run [] s = s
  run (metainfo_added metainfo options ∷ calls) s =
      run calls (add_metainfo session limits metainfo options s).1
  run (magnet_added magnet options ∷ calls) s =
      run calls (add_magnet session limits magnet options s).1

  module _ (I : S → Type 0)
      (listing_keeps : (source : Source) (options : AddTorrentOptions Peer) (s : S)
        → options.list_only ≡ true
        → I s
        → I (session.add_torrent source options s).1)
      (adding_keeps : (metainfo : Bytes) (options : AddTorrentOptions Peer) (s : S)
        → IsAdmitted session.torrent_from_bytes limits metainfo options.only_files
        → I s
        → I (session.add_torrent (from_bytes metainfo) options s).1) where
    after-keeps :
        (check : Result Error (Unit {0})) (rest : S → Result Error Torrent × S) (s : S)
        → (check ≡ ok tt → I (rest s).1)
        → I s
        → I (after session limits check rest s).1
    unfolding after
    after-keeps (ok tt) rest s kept i = kept refl
    after-keeps (err e) rest s kept i = i

    add_metainfo-keeps :
        (metainfo : Bytes) (options : AddOptions Peer) (s : S)
        → I s
        → I (add_metainfo session limits metainfo options s).1
    unfolding add_metainfo add rqbit_options
    add_metainfo-keeps metainfo options s i =
        after-keeps _ _ s
          (λ valid.
            after-keeps _ _ s
              (λ _. adding_keeps metainfo _ s (check_metainfo-IsAdmitted metainfo options valid) i)
              i)
          i

    add_resolved-keeps :
        (options : AddOptions Peer) (answer : Option (AddTorrentResponse Peer Torrent)) (s : S)
        → I s
        → I (add_resolved session limits options answer s).1
    unfolding add_resolved
    add_resolved-keeps options none s i = i
    add_resolved-keeps options (some (added handle)) s i = i
    add_resolved-keeps options (some (already_managed handle)) s i = i
    add_resolved-keeps options (some (list_only_response listed)) s i =
        after-keeps _ _ s (λ _. after-keeps _ _ s (λ _. add_metainfo-keeps _ _ s i) i) i

    add_magnet-keeps :
        (magnet : Bytes) (options : AddOptions Peer) (s : S)
        → I s
        → I (add_magnet session limits magnet options s).1
    unfolding add_magnet stage1_options
    add_magnet-keeps magnet options s i =
        after-keeps _ _ s
          (λ _. add_resolved-keeps options _ _ (listing_keeps (from_url magnet) _ s refl i)) i

    -- A predicate of the session's state that list-only calls keep, and that adding keeps of bytes
    -- which parse as safe metainfo within the limits with a selection of its files, holds after
    -- any calls of `add_metainfo` and `add_magnet`, whatever the session answers.
    pub run-keeps : (calls : List (Call Peer)) (s : S) → I s → I (run calls s)
    unfolding run
    run-keeps [] s i = i
    run-keeps (metainfo_added metainfo options ∷ calls) s i =
        run-keeps calls _ (add_metainfo-keeps metainfo options s i)
    run-keeps (magnet_added magnet options ∷ calls) s i =
        run-keeps calls _ (add_magnet-keeps magnet options s i)
