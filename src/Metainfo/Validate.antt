-- ===== src/Metainfo/Validate.antt =====
-- crates/torrent-engine/src/validate.rs: `validate_metainfo` and its loops.
use pubky_swarm.Base.{
  ℕ, ◌+◌, ◌-◌, Bool, true, false, not, ◌&&◌, Option, none, some, List, [], ◌∷◌, leb, ◌==◌, length,
  map,
}
use pubky_swarm.Base.Bytes.{Bytes, u64_max, bytes_eq, bytes_lt}
use pubky_swarm.Base.Order.{lex, list_eq}
use pubky_swarm.Base.Result.{Result, ok, ◌>>=◌, ◌>>◌, guard, ok_or}
use pubky_swarm.Base.Sort.{sort}
use pubky_swarm.Metainfo.{
  Shown, torrent_name, path_of, symlink, empty_path, file_count, path_components, path_bytes,
  total_bytes, Error, invalid_path_component, limit_exceeded, no_name, lengths_overflow,
  empty_content, duplicate_file_path, prefix_path_collision, MetainfoLimits, Info,
  validate_component, FileEntry, file_entries,
}

-- The numeric limits on one path. The sum counts a separator for each component but one.
unfoldable pub path_length : List Bytes → ℕ
path_length [] = 0
path_length (c ∷ cs) = length c + path_length cs

unfoldable pub within_path : Option MetainfoLimits → List Bytes → Result Error (Unit {0})
unfolding path_length
within_path none components = ok tt
within_path (some limits) components = do
  guard (leb (length components) limits.max_path_components)
      (limit_exceeded path_components (length components) limits.max_path_components)
  guard (leb (path_length components + length components - 1) limits.max_path_bytes) (
      limit_exceeded path_bytes (path_length components + length components - 1)
        limits.max_path_bytes)

-- The inner loop over a path's components.
unfoldable pub validate_components :
    Option MetainfoLimits → Shown → List Bytes → Result Error (Unit {0})
validate_components limits path [] = ok tt
validate_components limits path (c ∷ cs) =
    validate_component c limits path >> validate_components limits path cs

-- One turn of the loop over the entries, before the sum.
unfoldable pub validate_entry : Option MetainfoLimits → FileEntry → Result Error (Unit {0})
unfolding within_path
validate_entry limits entry = do
  guard (not entry.has_symlink) (invalid_path_component (path_of entry.components) symlink)
  guard (not (length entry.components == 0))
      (invalid_path_component (path_of entry.components) empty_path)
  within_path limits entry.components
  validate_components limits (path_of entry.components) entry.components

-- The loop, with `total_bytes`.
unfoldable pub validate_entries : Option MetainfoLimits → ℕ → List FileEntry → Result Error ℕ
validate_entries limits total [] = ok total
validate_entries limits total (entry ∷ entries) =
    validate_entry limits entry
    >> (guard (leb (total + entry.length) u64_max) lengths_overflow
        >> validate_entries limits (total + entry.length) entries)

-- `==`, `<` and `starts_with` of vectors of components.
abbrev pub path_eq : List Bytes → List Bytes → Bool
path_eq = list_eq bytes_eq

abbrev pub path_lt : List Bytes → List Bytes → Bool
path_lt = lex bytes_lt

unfoldable pub is_ancestor : List Bytes → List Bytes → Bool
is_ancestor [] descendant = true
is_ancestor (a ∷ ancestor) [] = false
is_ancestor (a ∷ ancestor) (d ∷ descendant) = bytes_eq a d && is_ancestor ancestor descendant

-- The loop over `paths.windows(2)`.
unfoldable pub check_neighbours : List (List Bytes) → Result Error (Unit {0})
check_neighbours [] = ok tt
check_neighbours (ancestor ∷ []) = ok tt
check_neighbours (ancestor ∷ descendant ∷ paths) =
    guard (not (path_eq ancestor descendant)) (duplicate_file_path ancestor)
    >> (guard (not (is_ancestor ancestor descendant)) (prefix_path_collision ancestor descendant)
        >> check_neighbours (descendant ∷ paths))

-- The limits on the number of files and on their sum.
unfoldable pub within_files : Option MetainfoLimits → ℕ → Result Error (Unit {0})
within_files none count = ok tt
within_files (some limits) count =
    guard (leb count limits.max_files) (limit_exceeded file_count count limits.max_files)

unfoldable pub within_total : Option MetainfoLimits → ℕ → Result Error (Unit {0})
within_total none total = ok tt
within_total (some limits) total =
    guard (leb total limits.max_total_bytes)
      (limit_exceeded total_bytes total limits.max_total_bytes)

unfoldable pub validate_metainfo : Info → Option MetainfoLimits → Result Error (Unit {0})
unfolding within_files within_total
validate_metainfo info limits = do
  name ← ok_or info.name no_name
  validate_component name limits torrent_name
  entries ← file_entries info
  within_files limits (length entries)
  total ← validate_entries limits 0 entries
  check_neighbours (sort path_lt (map FileEntry.components entries))
  guard (not (total == 0)) empty_content
  within_total limits total

-- `file_count`: the number of files of validated metainfo.
unfoldable pub count_files : Info → ℕ
count_files info = elim info.files [ none ↦ 1 | some files ↦ length files ]
