-- ===== src/Protocol/Release/Exact.antt =====
-- A release is accepted exactly when its fields are within their bounds.
use pubky_swarm.Base.{
  ℕ, ◌+◌, ◌≤◌, ◌≡◌, ◌≢◌, ◌↔◌, refl, inl, inr, true, false, not, ◌||◌, some, List, [], ◌∷◌, ◌++◌,
  map, ltb, ◌==◌, length, arith, All, Bool-cases,
}
use pubky_swarm.Base.Bytes.{Bytes, codes, u64_max, bytes_eq, bytes_lt, bytes_eq_iff, starts_with}
use pubky_swarm.Base.Pairs.{AllPairs, IsChain}
use pubky_swarm.Base.Result.{ok, guard-eq-ok, >>=-eq-ok, >>-eq-ok}
use pubky_swarm.Base.Sort.{sort}
use pubky_swarm.Protocol.Crates.{Crates}
use pubky_swarm.Protocol.Portable.{validate_portable_path, validate_tags, tags_from, is_tag}
use pubky_swarm.Protocol.Portable.Text.{validate_text_iff}
use pubky_swarm.Protocol.Release.{
  ReleaseFile, TorrentV1, ReleaseV1, release_schema, validate_tracker_url, validate_each,
  validate_trackers, sum_files, check_neighbours, validate_torrent, validate, try_from_wire,
}
use pubky_swarm.Protocol.Release.Torrent.{IsTorrent, TagBefore, IsGoodTracker, sum_sizes}
use pubky_swarm.Protocol.Release.Valid.{
  IsRelease, validate-IsRelease, derived_id, try_from_wire-parts,
}

-- In the sorted paths no path is followed by itself or by a path inside it.
abbrev pub Apart : Bytes → Bytes → Type 0
Apart a b = (a ≢ b) × (starts_with (a ++ codes "/") b ≡ false)

abbrev pub IsSeparate : TorrentV1 → Type 0
IsSeparate torrent = IsChain Apart (sort bytes_lt (map ReleaseFile.path torrent.files))

not_same : (a b : Bytes) → a ≢ b → bytes_eq a b ≡ false
not_same a b differs = elim (Bool-cases (bytes_eq a b)) [
  | inl k ↦ absurd (differs ((bytes_eq_iff a b).0 k))
  | inr k ↦ k
]

check_neighbours_iff : (paths : List Bytes) → (check_neighbours paths ≡ ok tt) ↔ IsChain Apart paths
unfolding check_neighbours
check_neighbours_iff [] = (λ h. tt, λ h. refl)
check_neighbours_iff (a ∷ []) = (λ h. tt, λ h. refl)
check_neighbours_iff (a ∷ b ∷ paths) = (
  λ h.
      let (k, rest) = guard-eq-ok (not (bytes_eq a b || starts_with (a ++ codes "/") b)) _ _ h in
      (
        (λ same. ground (arith, k, (bytes_eq_iff a b).1 same), ground (arith, k)),
        (check_neighbours_iff (b ∷ paths)).0 rest,
      ),
  λ ((differs, outside), rest).
      ground (arith, outside, not_same a b differs, (check_neighbours_iff (b ∷ paths)).1 rest),
)

sum_files-ok :
    (total : ℕ) (files : List ReleaseFile)
    → All (λ (file : ReleaseFile). validate_portable_path file.path ≡ ok tt) files
    → total + sum_sizes files ≤ u64_max
    → sum_files total files ≡ ok (total + sum_sizes files)
unfolding sum_files
sum_files-ok total [] h k = ground arith
sum_files-ok total (file ∷ files) (h, hs) k =
    let rest = sum_files-ok (total + file.size) files hs (omega (arith, k)) in
    ground (arith, h, rest)

tags_after :
    (p : Bytes) (tags : List Bytes)
    → All (λ tag. is_tag tag ≡ true) tags
    → AllPairs TagBefore (p ∷ tags)
    → tags_from (some p) tags ≡ ok tt
unfolding tags_from
tags_after p [] h k = refl
tags_after p (t ∷ tags) (h, hs) ((k, _), ks) =
    let rest = tags_after t tags hs ks in ground (arith, h, k, rest)

validate_tags-ok :
    (tags : List Bytes)
    → length tags ≤ 16
    → All (λ tag. is_tag tag ≡ true) tags
    → AllPairs TagBefore tags
    → validate_tags tags ≡ ok tt
unfolding validate_tags tags_from
validate_tags-ok [] few h k = refl
validate_tags-ok (t ∷ tags) few (h, hs) k =
    let rest = tags_after t tags hs k in ground (arith, few, h, rest)

module _ (x : Crates) where
  validate_each-ok :
      (trackers : List Bytes) → All (IsGoodTracker x) trackers → validate_each x trackers ≡ ok tt
  unfolding validate_each validate_tracker_url
  validate_each-ok [] h = refl
  validate_each-ok (tracker ∷ trackers) ((short, (url, parsed, good)), hs) =
      ground (arith, short, parsed, good, validate_each-ok trackers hs)

  validate_trackers-ok :
      (trackers : List Bytes)
      → length trackers ≤ 16
      → All (IsGoodTracker x) trackers
      → validate_trackers x trackers ≡ ok tt
  unfolding validate_trackers
  validate_trackers-ok trackers few h = ground (arith, few, validate_each-ok trackers h)

  validate_torrent-ok :
      (torrent : TorrentV1)
      → IsTorrent x torrent
      → IsSeparate torrent
      → validate_torrent x torrent ≡ ok tt
  unfolding validate_torrent
  validate_torrent-ok torrent h apart =
      let bounded : 0 + sum_sizes torrent.files ≤ u64_max = omega (arith, h.adds_up, h.fits) in
      let summed = sum_files-ok 0 torrent.files h.portable bounded in
      let separate =
        (check_neighbours_iff (sort bytes_lt (map ReleaseFile.path torrent.files))).1 apart in
      let tracked = validate_trackers-ok torrent.trackers h.few_trackers h.trackers in
      ground
        (arith, h.some_content, h.some_files, h.few_files, summed, separate, h.adds_up, tracked)

  validate-ok :
      (release : ReleaseV1)
      → IsRelease x release
      → IsSeparate release.torrent
      → validate x release ≡ ok tt
  unfolding validate
  validate-ok release h apart =
      let content = validate_torrent-ok release.torrent h.torrent_ok apart in
      let tagged = validate_tags-ok release.tags h.few_tags h.good_tags h.sorted_tags in
      let titled = (validate_text_iff "title" release.title 1 200).1 h.title_ok in
      let described =
        (validate_text_iff "description" release.description 0 4000).1 h.description_ok in
      let schema = (bytes_eq_iff release.schema release_schema).1 h.schema_is in
      ground (arith, schema, h.version_is, titled, described, h.dated, content, tagged)

  validate_torrent-IsSeparate :
      (torrent : TorrentV1) → validate_torrent x torrent ≡ ok tt → IsSeparate torrent
  unfolding validate_torrent
  validate_torrent-IsSeparate torrent e =
      let (_, e₁) = guard-eq-ok (not (torrent.size == 0)) _ _ e in
      let (_, e₂) =
        guard-eq-ok (not (length torrent.files == 0 || ltb 10_000 (length torrent.files))) _ _ e₁ in
      let (_, _, e₃) = >>=-eq-ok (sum_files 0 torrent.files) _ e₂ in
      let (checked, _) =
        >>-eq-ok (check_neighbours (sort bytes_lt (map ReleaseFile.path torrent.files))) _ e₃ in
      (check_neighbours_iff (sort bytes_lt (map ReleaseFile.path torrent.files))).0 checked

  validate-IsSeparate :
      (release : ReleaseV1) → validate x release ≡ ok tt → IsSeparate release.torrent
  unfolding validate
  validate-IsSeparate release e =
      let checked : validate_torrent x release.torrent ≡ ok tt = ground arith in
      validate_torrent-IsSeparate release.torrent checked

  -- Deserialising accepts a wire form exactly when its fields are within their bounds, no path in
  -- the order of its files' paths is followed by the same path or one inside it, and its identifier
  -- is the one derived from the publisher, the time and the info hash; it returns it as it is. The
  -- bounds are the schema's header, a positive time, the lengths of title and description, files
  -- with portable paths that add up to the size, at most 16 accepted trackers, and at most 16 sorted
  -- tags.
  pub try_from_wire_iff :
      (wire release : ReleaseV1)
      → (try_from_wire x wire ≡ ok release) ↔ (
          (release ≡ wire)
          × IsRelease x wire
          × IsSeparate wire.torrent
          × (wire.id ≡ derived_id x wire))
  try_from_wire_iff wire release =
      let (read_is, accepts) = try_from_wire-parts x wire release in
      (
        λ e.
            let (same, valid, id) = read_is e in
            (same, validate-IsRelease x wire valid, validate-IsSeparate wire valid, id),
        λ (same, good, apart, id). accepts (same, validate-ok wire good apart, id),
      )
