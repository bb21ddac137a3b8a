-- ===== src/Protocol/Release/Torrent.antt =====
-- What an accepted payload and accepted tags are.
use pubky_swarm.Base.{
  ℕ, ◌+◌, ◌≤◌, ◌<◌, ◌≡◌, ◌≢◌, refl, sym, inl, inr, Bool, true, false, not, ◌||◌, Option, none, some,
  List, [], ◌∷◌, ◌++◌, map, ltb, leb, ◌==◌, length, arith, All, Bool-cases,
}
use pubky_swarm.Base.Bytes.{
  Bytes, codes, u64_max, bytes_eq, bytes_lt, bytes_eq_iff, bytes_lt-StrictOrder, starts_with,
}
use pubky_swarm.Base.Order.{asym}
use pubky_swarm.Base.Pairs.{AllPairs, AllPairs-sort, AllPairs-imp, IsChain, IsChain-AllPairs}
use pubky_swarm.Base.Result.{ok, guard, ok_or, >>=-eq-ok, guard-eq-ok, >>-eq-ok}
use pubky_swarm.Base.Sort.{sort, IsSorted, sort-IsSorted}
use pubky_swarm.Protocol.Crates.{Crates, Url}
use pubky_swarm.Protocol.Error.{Error}
use pubky_swarm.Protocol.Portable.{validate_portable_path, validate_tags, tags_from, is_tag}
use pubky_swarm.Protocol.Release.{
  ReleaseFile, TorrentV1, is_refused_tracker, validate_tracker_url, validate_each,
  validate_trackers, sum_files, check_neighbours, validate_torrent,
}

ok_or-eq-ok : {A : Type 0} (o : Option A) (e : Error) (a : A) → ok_or o e ≡ ok a → o ≡ some a
ok_or-eq-ok none e a h = cc
ok_or-eq-ok (some b) e a h = ground arith

last_guard : (t : Bool) (e : Error) → guard t e ≡ ok tt → t ≡ true
last_guard true e h = refl
last_guard false e h = cc

-- The order of tags.
abbrev pub TagBefore : Bytes → Bytes → Type 0
TagBefore a b = bytes_lt a b ≡ true

tags_from-eq-ok :
    (previous : Option Bytes) (tags : List Bytes)
    → tags_from previous tags ≡ ok tt
    → All (λ tag. is_tag tag ≡ true) tags × IsChain TagBefore tags
unfolding tags_from
tags_from-eq-ok previous [] e = (tt, tt)
tags_from-eq-ok previous (t ∷ []) e = ((ground arith, tt), tt)
tags_from-eq-ok previous (t ∷ u ∷ tags) e =
    let (k, rest) : (is_tag t ≡ true) × (tags_from (some t) (u ∷ tags) ≡ ok tt) = ground arith in
    let (k', ks) = tags_from-eq-ok (some t) (u ∷ tags) rest in ((k, k'), (ground arith, ks))

-- Accepted tags are at most 16 tags of the allowed characters, each one smaller than every later
-- one, so that none appears twice.
pub validate_tags-eq-ok :
    (tags : List Bytes)
    → validate_tags tags ≡ ok tt
    → (length tags ≤ 16) × All (λ tag. is_tag tag ≡ true) tags × AllPairs TagBefore tags
unfolding validate_tags
validate_tags-eq-ok tags e =
    let (k, h) : (length tags ≤ 16) × (tags_from none tags ≡ ok tt) = ground arith in
    let (good, chain) = tags_from-eq-ok none tags h in
    (k, good, IsChain-AllPairs TagBefore (bytes_lt-StrictOrder.trans) tags chain)

-- A tracker that parses to a URL without credentials.
abbrev pub IsGoodTracker : Crates → Bytes → Type 0
IsGoodTracker x tracker =
    (length tracker ≤ 2048)
    × ((url : Url) × (x.parse_url tracker ≡ some url) × (is_refused_tracker url ≡ false))

-- The sum of the files' sizes.
abbrev pub sum_sizes : List ReleaseFile → ℕ
sum_sizes [] = 0
sum_sizes (file ∷ files) = file.size + sum_sizes files

-- A payload whose files have distinct portable paths and add up to its size.
pub record IsTorrent (x : Crates) (torrent : TorrentV1) : Type 0 where
  pub some_content : 0 < torrent.size
  pub some_files : 0 < length torrent.files
  pub few_files : length torrent.files ≤ 10_000
  pub portable :
      All (λ (file : ReleaseFile). validate_portable_path file.path ≡ ok tt) torrent.files
  pub adds_up : sum_sizes torrent.files ≡ torrent.size
  pub fits : torrent.size ≤ u64_max
  pub distinct : AllPairs (◌≢◌ {A = Bytes}) (map ReleaseFile.path torrent.files)
  pub few_trackers : length torrent.trackers ≤ 16
  pub trackers : All (IsGoodTracker x) torrent.trackers

sum_files-eq-ok :
    (total : ℕ) (files : List ReleaseFile) (t : ℕ)
    → total ≤ u64_max
    → sum_files total files ≡ ok t
    → All (λ (file : ReleaseFile). validate_portable_path file.path ≡ ok tt) files
      × (t ≡ total + sum_sizes files)
      × (t ≤ u64_max)
unfolding sum_files
sum_files-eq-ok total [] t h e = (tt, ground arith, ground arith)
sum_files-eq-ok total (file ∷ files) t h e =
    let (k, e₁) = >>-eq-ok (validate_portable_path file.path) _ e in
    let (l, e₂) = guard-eq-ok (leb (total + file.size) u64_max) _ _ e₁ in
    let (portable, sum, bound) =
      sum_files-eq-ok (total + file.size) files t (ground (arith, l)) e₂ in
    ((k, portable), omega (arith, sum), bound)

strict_neighbours :
    (a b : Bytes)
    → bytes_lt b a ≡ false
    → not (bytes_eq a b || starts_with (a ++ codes "/") b) ≡ true
    → bytes_lt a b ≡ true
strict_neighbours a b h k = elim (Bool-cases (bytes_lt a b)) [
  | inl l ↦ l
  | inr l ↦
      let same : a ≡ b = bytes_lt-StrictOrder.total a b l h in
      let eq : bytes_eq a b ≡ true = (bytes_eq_iff a b).1 same in cc (rw eq at k)
]

check_neighbours-IsChain :
    (paths : List Bytes)
    → IsSorted bytes_lt paths
    → check_neighbours paths ≡ ok tt
    → IsChain TagBefore paths
unfolding check_neighbours
check_neighbours-IsChain [] h e = tt
check_neighbours-IsChain (a ∷ []) h e = tt
check_neighbours-IsChain (a ∷ b ∷ paths) (h, hs) e =
    let (k, e₁) = guard-eq-ok (not (bytes_eq a b || starts_with (a ++ codes "/") b)) _ _ e in
    (strict_neighbours a b h k, check_neighbours-IsChain (b ∷ paths) hs e₁)

smaller_differs : (a b : Bytes) → TagBefore a b → a ≢ b
smaller_differs a b h same = absurd (cc (rw same at h, bytes_lt-StrictOrder.irrefl b))

check_neighbours-distinct :
    (paths : List Bytes)
    → check_neighbours (sort bytes_lt paths) ≡ ok tt
    → AllPairs (◌≢◌ {A = Bytes}) paths
check_neighbours-distinct paths e =
    let chain =
      check_neighbours-IsChain (sort bytes_lt paths)
        (sort-IsSorted bytes_lt (asym bytes_lt bytes_lt-StrictOrder) paths) e in
    AllPairs-sort bytes_lt (◌≢◌ {A = Bytes}) (λ a b h same. h (sym same)) paths
      (AllPairs-imp TagBefore (◌≢◌ {A = Bytes}) smaller_differs (sort bytes_lt paths)
        (IsChain-AllPairs TagBefore (bytes_lt-StrictOrder.trans) (sort bytes_lt paths) chain))

size_is :
    (total sum size : ℕ)
    → total ≡ 0 + sum
    → total ≤ u64_max
    → (total == size) ≡ true
    → (sum ≡ size) × (size ≤ u64_max)
size_is total sum size h k l = (ground arith, ground arith)

module _ (x : Crates) where
  validate_tracker_url-eq-ok :
      (tracker : Bytes) → validate_tracker_url x tracker ≡ ok tt → IsGoodTracker x tracker
  unfolding validate_tracker_url
  validate_tracker_url-eq-ok tracker e =
      let (h, e₁) = guard-eq-ok (leb (length tracker) 2048) _ _ e in
      let (url, k, e₂) = >>=-eq-ok (ok_or (x.parse_url tracker) _) _ e₁ in
      (
        ground (arith, h),
        (
          url,
          ok_or-eq-ok (x.parse_url tracker) _ url k,
          ground (arith, last_guard (not (is_refused_tracker url)) _ e₂),
        ),
      )

  validate_each-All :
      (trackers : List Bytes) → validate_each x trackers ≡ ok tt → All (IsGoodTracker x) trackers
  unfolding validate_each
  validate_each-All [] e = tt
  validate_each-All (tracker ∷ trackers) e =
      let (k, e₁) = >>-eq-ok (validate_tracker_url x tracker) _ e in
      (validate_tracker_url-eq-ok tracker k, validate_each-All trackers e₁)

  validate_trackers-eq-ok :
      (trackers : List Bytes)
      → validate_trackers x trackers ≡ ok tt
      → (length trackers ≤ 16) × All (IsGoodTracker x) trackers
  unfolding validate_trackers
  validate_trackers-eq-ok trackers e =
      let (h, e₁) = guard-eq-ok (leb (length trackers) 16) _ _ e in
      (ground (arith, h), validate_each-All trackers e₁)

  pub validate_torrent-IsTorrent :
      (torrent : TorrentV1) → validate_torrent x torrent ≡ ok tt → IsTorrent x torrent
  unfolding validate_torrent
  validate_torrent-IsTorrent torrent e =
      let (h₁, e₁) = guard-eq-ok (not (torrent.size == 0)) _ _ e in
      let (h₂, e₂) =
        guard-eq-ok (not (length torrent.files == 0 || ltb 10_000 (length torrent.files))) _ _ e₁ in
      let (total, h₃, e₃) = >>=-eq-ok (sum_files 0 torrent.files) _ e₂ in
      let (h₄, e₄) =
        >>-eq-ok (check_neighbours (sort bytes_lt (map ReleaseFile.path torrent.files))) _ e₃ in
      let (h₅, h₆) = guard-eq-ok (total == torrent.size) _ _ e₄ in
      let (portable, sum, bound) = sum_files-eq-ok 0 torrent.files total (omega arith) h₃ in
      let (few, good) = validate_trackers-eq-ok torrent.trackers h₆ in
      let (adds_up, fits) = size_is total (sum_sizes torrent.files) torrent.size sum bound h₅ in
      record {
        some_content = ground (arith, h₁);
        some_files = ground (arith, h₂);
        few_files = ground (arith, h₂);
        portable = portable;
        adds_up = adds_up;
        fits = fits;
        distinct = check_neighbours-distinct (map ReleaseFile.path torrent.files) h₄;
        few_trackers = few;
        trackers = good;
      }
