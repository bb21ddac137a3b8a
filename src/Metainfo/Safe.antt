-- ===== src/Metainfo/Safe.antt =====
-- What accepted metainfo is.
use pubky_swarm.Base.{
  ℕ, ◌+◌, ◌-◌, ◌≤◌, ◌<◌, ◌≡◌, Bool, true, false, not, ◌||◌, Option, none, some, List, [], ◌∷◌, leb,
  ◌==◌, length, map, any, arith, All,
}
use pubky_swarm.Base.Bytes.{Bytes, codes, u64_max, bytes_eq, contains}
use pubky_swarm.Base.Result.{ok, ok_or, >>=-eq-ok, guard-eq-ok, >>-eq-ok}
use pubky_swarm.Base.Pairs.{AllPairs}
use pubky_swarm.Base.Sort.{sort}
use pubky_swarm.Base.Utf8.{is_utf8}
use pubky_swarm.Protocol.Portable.{ends_with}
use pubky_swarm.Metainfo.{
  Shown, path_of, torrent_name, Error, MetainfoLimits, Info, FileEntry, is_windows_reserved_name,
  validate_component, file_entries, within_component, not_reserved, is_ascii_control,
  is_drive_prefix,
}
use pubky_swarm.Metainfo.Validate.{
  validate_components, validate_entry, validate_entries, check_neighbours, path_lt,
  validate_metainfo, within_path, within_files, within_total, path_length,
}
use pubky_swarm.Metainfo.Apart.{Apart, check_neighbours-AllPairs}

-- A limit, where there are limits.
abbrev pub Within : Option MetainfoLimits → (MetainfoLimits → ℕ) → ℕ → Type 0
Within none max n = Unit
Within (some limits) max n = n ≤ max limits

-- A component that is safe as a name in a directory.
pub record IsSafeComponent (limits : Option MetainfoLimits) (c : Bytes) : Type 0 where
  pub some_bytes : bytes_eq c [] ≡ false
  pub utf8 : is_utf8 c ≡ true
  pub no_dots : (bytes_eq c (codes ".") || bytes_eq c (codes "..")) ≡ false
  pub no_separator : (contains b'/' c || contains b'\\' c) ≡ false
  pub no_control : any is_ascii_control c ≡ false
  pub no_dot_or_space_end : (ends_with b'.' c || ends_with b' ' c) ≡ false
  pub no_drive : is_drive_prefix c ≡ false
  pub not_reserved_name : is_windows_reserved_name c ≡ some false
  pub short : Within limits MetainfoLimits.max_component_bytes (length c)

not-true : (b : Bool) → not b ≡ true → b ≡ false
not-true b h = ground arith

within_component-Within :
    (limits : Option MetainfoLimits) (c : Bytes)
    → within_component limits c ≡ ok tt
    → Within limits MetainfoLimits.max_component_bytes (length c)
unfolding within_component
within_component-Within none c h = tt
within_component-Within (some limits) c h = ground arith

not_reserved-eq-ok : (o : Option Bool) (path : Shown) → not_reserved o path ≡ ok tt → o ≡ some false
unfolding not_reserved
not_reserved-eq-ok none path h = cc
not_reserved-eq-ok (some b) path h = ground arith

validate_component-IsSafeComponent :
    (c : Bytes) (limits : Option MetainfoLimits) (path : Shown)
    → validate_component c limits path ≡ ok tt
    → IsSafeComponent limits c
unfolding validate_component
validate_component-IsSafeComponent c limits path e =
    let (h₁, k₁) = guard-eq-ok (not (bytes_eq c [])) _ _ e in
    let (h₂, k₂) = guard-eq-ok (is_utf8 c) _ _ k₁ in
    let (h₃, k₃) = guard-eq-ok (not (bytes_eq c (codes ".") || bytes_eq c (codes ".."))) _ _ k₂ in
    let (h₄, k₄) = guard-eq-ok (not (contains b'/' c || contains b'\\' c)) _ _ k₃ in
    let (h₅, k₅) = guard-eq-ok (not (any is_ascii_control c)) _ _ k₄ in
    let (h₆, k₆) = guard-eq-ok (not (ends_with b'.' c || ends_with b' ' c)) _ _ k₅ in
    let (h₇, k₇) = guard-eq-ok (not (is_drive_prefix c)) _ _ k₆ in
    let (h₈, h₉) = >>-eq-ok (not_reserved (is_windows_reserved_name c) path) _ k₇ in
    record {
      some_bytes = not-true _ h₁;
      utf8 = h₂;
      no_dots = not-true _ h₃;
      no_separator = not-true _ h₄;
      no_control = not-true _ h₅;
      no_dot_or_space_end = not-true _ h₆;
      no_drive = not-true _ h₇;
      not_reserved_name = not_reserved-eq-ok (is_windows_reserved_name c) path h₈;
      short = within_component-Within limits c h₉;
    }

-- A file of the torrent: no link, and a path of safe components within the limits.
pub record IsSafeEntry (limits : Option MetainfoLimits) (entry : FileEntry) : Type 0 where
  pub no_symlink : entry.has_symlink ≡ false
  pub some_components : 0 < length entry.components
  pub shallow : Within limits MetainfoLimits.max_path_components (length entry.components)
  pub short :
      Within limits MetainfoLimits.max_path_bytes
        (path_length entry.components + length entry.components - 1)
  pub safe : All (IsSafeComponent limits) entry.components

validate_components-All :
    (limits : Option MetainfoLimits) (path : Shown) (cs : List Bytes)
    → validate_components limits path cs ≡ ok tt
    → All (IsSafeComponent limits) cs
unfolding validate_components
validate_components-All limits path [] e = tt
validate_components-All limits path (c ∷ cs) e =
    let (k, e₁) = >>-eq-ok (validate_component c limits path) _ e in
    (validate_component-IsSafeComponent c limits path k, validate_components-All limits path cs e₁)

within_path-Within :
    (limits : Option MetainfoLimits) (cs : List Bytes)
    → within_path limits cs ≡ ok tt
    → Within limits MetainfoLimits.max_path_components (length cs)
      × Within limits MetainfoLimits.max_path_bytes (path_length cs + length cs - 1)
unfolding within_path
within_path-Within none cs h = (tt, tt)
within_path-Within (some limits) cs h = ground arith

validate_entry-IsSafeEntry :
    (limits : Option MetainfoLimits) (entry : FileEntry)
    → validate_entry limits entry ≡ ok tt
    → IsSafeEntry limits entry
unfolding validate_entry
validate_entry-IsSafeEntry limits entry e =
    let (h₁, k₁) = guard-eq-ok (not entry.has_symlink) _ _ e in
    let (h₂, k₂) = guard-eq-ok (not (length entry.components == 0)) _ _ k₁ in
    let (h₃, k₃) = >>-eq-ok (within_path limits entry.components) _ k₂ in
    let (shallow, short) = within_path-Within limits entry.components h₃ in
    record {
      no_symlink = not-true _ h₁;
      some_components = ground (arith, h₂);
      shallow = shallow;
      short = short;
      safe = validate_components-All limits (path_of entry.components) entry.components k₃;
    }

-- The sum of the files' lengths.
abbrev pub sum_lengths : List FileEntry → ℕ
sum_lengths [] = 0
sum_lengths (entry ∷ entries) = entry.length + sum_lengths entries

validate_entries-eq-ok :
    (limits : Option MetainfoLimits) (total : ℕ) (entries : List FileEntry) (t : ℕ)
    → total ≤ u64_max
    → validate_entries limits total entries ≡ ok t
    → All (IsSafeEntry limits) entries × (t ≡ total + sum_lengths entries) × (t ≤ u64_max)
unfolding validate_entries
validate_entries-eq-ok limits total [] t h e = (tt, ground arith, ground arith)
validate_entries-eq-ok limits total (entry ∷ entries) t h e =
    let (k, e₁) = >>-eq-ok (validate_entry limits entry) _ e in
    let (l, e₂) = guard-eq-ok (leb (total + entry.length) u64_max) _ _ e₁ in
    let (safe, sum, bound) =
      validate_entries-eq-ok limits (total + entry.length) entries t (ground (arith, l)) e₂ in
    ((validate_entry-IsSafeEntry limits entry k, safe), omega (arith, sum), bound)

-- Metainfo with safe files, of which no two collide, and a size within bounds.
pub record IsSafe (info : Info) (limits : Option MetainfoLimits) : Type 0 where
  pub name : Bytes
  pub name_is : info.name ≡ some name
  pub safe_name : IsSafeComponent limits name
  pub entries : List FileEntry
  pub entries_are : file_entries info ≡ ok entries
  pub safe_entries : All (IsSafeEntry limits) entries
  pub apart : AllPairs Apart (map FileEntry.components entries)
  pub few : Within limits MetainfoLimits.max_files (length entries)
  pub some_content : 0 < sum_lengths entries
  pub fits : sum_lengths entries ≤ u64_max
  pub small : Within limits MetainfoLimits.max_total_bytes (sum_lengths entries)

within_files-Within :
    (limits : Option MetainfoLimits) (n : ℕ)
    → within_files limits n ≡ ok tt
    → Within limits MetainfoLimits.max_files n
unfolding within_files
within_files-Within none n h = tt
within_files-Within (some limits) n h = ground arith

within_total-Within :
    (limits : Option MetainfoLimits) (n : ℕ)
    → within_total limits n ≡ ok tt
    → Within limits MetainfoLimits.max_total_bytes n
unfolding within_total
within_total-Within none n h = tt
within_total-Within (some limits) n h = ground arith

ok_or-eq-ok : {A : Type 0} (o : Option A) (e : Error) (a : A) → ok_or o e ≡ ok a → o ≡ some a
ok_or-eq-ok none e a h = cc
ok_or-eq-ok (some b) e a h = ground arith

sum_bounds :
    (limits : Option MetainfoLimits) (total sum : ℕ)
    → total ≡ 0 + sum
    → not (total == 0) ≡ true
    → total ≤ u64_max
    → Within limits MetainfoLimits.max_total_bytes total
    → (0 < sum) × (sum ≤ u64_max) × Within limits MetainfoLimits.max_total_bytes sum
sum_bounds none total sum e h k w = (ground arith, ground arith, tt)
sum_bounds (some limits) total sum e h k w = (ground arith, ground arith, ground arith)

-- Accepted metainfo has a safe name and safe paths without links, no two paths of it are equal or
-- one inside the other, and its size is positive, fits 64 bits and is within the limits.
pub validate_metainfo-IsSafe :
    (info : Info) (limits : Option MetainfoLimits)
    → validate_metainfo info limits ≡ ok tt
    → IsSafe info limits
unfolding validate_metainfo
validate_metainfo-IsSafe info limits e =
    let (name, e₁, k₁) = >>=-eq-ok (ok_or info.name _) _ e in
    let (h₂, k₂) = >>-eq-ok (validate_component name limits torrent_name) _ k₁ in
    let (entries, e₃, k₃) = >>=-eq-ok (file_entries info) _ k₂ in
    let (h₄, k₄) = >>-eq-ok (within_files limits (length entries)) _ k₃ in
    let (total, e₅, k₅) = >>=-eq-ok (validate_entries limits 0 entries) _ k₄ in
    let (h₆, k₆) =
      >>-eq-ok (check_neighbours (sort path_lt (map FileEntry.components entries))) _ k₅ in
    let (h₇, h₈) = guard-eq-ok (not (total == 0)) _ _ k₆ in
    let (safe, sum, bound) = validate_entries-eq-ok limits 0 entries total (omega arith) e₅ in
    let (positive, fits, small) =
      sum_bounds limits total (sum_lengths entries) sum h₇ bound
        (within_total-Within limits total h₈) in
    record {
      name = name;
      name_is = ok_or-eq-ok info.name _ name e₁;
      safe_name = validate_component-IsSafeComponent name limits torrent_name h₂;
      entries = entries;
      entries_are = e₃;
      safe_entries = safe;
      apart = check_neighbours-AllPairs (map FileEntry.components entries) h₆;
      few = within_files-Within limits (length entries) h₄;
      some_content = positive;
      fits = fits;
      small = small;
    }
