-- ===== src/Metainfo.antt =====
-- crates/torrent-engine/src/validate.rs: the checks on untrusted torrent metainfo. A Rust panic is
-- an error of its own, so that the model is total.
pub mod Validate
pub mod Apart
pub mod Safe
pub mod Panics
use pubky_swarm.Base.{
  ℕ, zero, suc, ◌+◌, ◌-◌, ◌≡◌, refl, Bool, true, false, not, ◌||◌, ◌&&◌, Option, none, some, List,
  [], ◌∷◌, ltb, leb, ◌==◌, if◌then◌else◌, length, map, any, take, drop, get_elem?,
}
use pubky_swarm.Base.Bytes.{
  Bytes, codes, u64_max, bytes_eq, bytes_lt, contains, upper_byte, is_digit, is_ascii_lowercase,
  is_ascii_uppercase,
}
use pubky_swarm.Base.Order.{lex, list_eq}
use pubky_swarm.Base.Paths.{first_piece}
use pubky_swarm.Base.Result.{Result, ok, err, ◌>>=◌, ◌>>◌, guard, ok_or}
use pubky_swarm.Base.Sort.{sort}
use pubky_swarm.Base.Utf8.{is_utf8}
use pubky_swarm.Protocol.Portable.{ends_with}

-- What the errors name: the components of a path, or the torrent's name.
pub data Shown : Type 0 where
  torrent_name : Shown
  path_of : List Bytes → Shown

pub data Reason : Type 0 where
  empty_component : Reason
  not_utf8 : Reason
  dot_component : Reason
  separator : Reason
  control_character : Reason
  dot_or_space_end : Reason
  drive_prefix : Reason
  reserved_name : Reason
  symlink : Reason
  empty_path : Reason

pub data Limit : Type 0 where
  component_bytes : Limit
  file_count : Limit
  path_components : Limit
  path_bytes : Limit
  total_bytes : Limit

pub data Error : Type 0 where
  invalid_path_component : Shown → Reason → Error
  limit_exceeded : Limit → (value max : ℕ) → Error
  no_length : Error
  no_name : Error
  lengths_overflow : Error
  empty_content : Error
  duplicate_file_path : List Bytes → Error
  prefix_path_collision : (directory file : List Bytes) → Error
  panic : Error

pub record MetainfoLimits : Type 0 where
  pub max_files : ℕ
  pub max_total_bytes : ℕ
  pub max_path_components : ℕ
  pub max_component_bytes : ℕ
  pub max_path_bytes : ℕ

-- What the program reads of librqbit's `TorrentMetaV1Info` and of its files.
pub record InfoFile : Type 0 where
  pub path : List Bytes
  pub length : ℕ
  pub symlink_path : Option (List Bytes)

pub record Info : Type 0 where
  pub name : Option Bytes
  pub files : Option (List InfoFile)
  pub length : Option ℕ
  pub symlink_path : Option (List Bytes)

-- `a.eq_ignore_ascii_case(b)`.
unfoldable pub eq_ignore_ascii_case : Bytes → Bytes → Bool
unfolding upper_byte
eq_ignore_ascii_case a b = bytes_eq (map upper_byte a) (map upper_byte b)

-- `&stem[..3]` of four bytes: a panic inside a character, that is before a continuation byte.
unfoldable pub first_three : Bytes → Option Bytes
first_three stem = elim (get_elem? stem 3) [
  | none ↦ none
  | some b ↦ if leb 128 b && ltb b 192 then none else some (take 3 stem)
]

is_serial_digit : Option ℕ → Bool
is_serial_digit none = false
is_serial_digit (some d) = is_digit d && not (d == b'0')

-- The closure `is_serial`, with the panic as `none`.
unfoldable pub is_serial : Bytes → Bytes → Option Bool
unfolding is_serial_digit
is_serial stem prefix = if not (length stem == 4) then some false else elim (first_three stem) [
  | none ↦ none
  | some head ↦ some (eq_ignore_ascii_case head prefix && is_serial_digit (get_elem? stem 3))
]

unfoldable pub is_windows_reserved_name : Bytes → Option Bool
is_windows_reserved_name component =
    let stem = first_piece b'.' component in
    if any (eq_ignore_ascii_case stem) (codes "CON" ∷ codes "PRN" ∷ codes "AUX" ∷ codes "NUL" ∷ [])
    then some true
    else elim (is_serial stem (codes "COM")) [
      | none ↦ none
      | some true ↦ some true
      | some false ↦ is_serial stem (codes "LPT")
    ]

-- `char::is_ascii_control`, at a byte: the bytes of other characters are 128 or more.
unfoldable pub is_ascii_control : ℕ → Bool
is_ascii_control b = ltb b 32 || b == 127

unfoldable pub is_drive_prefix : Bytes → Bool
is_drive_prefix (a ∷ b ∷ []) = (is_ascii_lowercase a || is_ascii_uppercase a) && b == b':'
is_drive_prefix _ = false

-- The length limit of a component.
unfoldable pub within_component : Option MetainfoLimits → Bytes → Result Error (Unit {0})
within_component none component = ok tt
within_component (some limits) component =
    guard (leb (length component) limits.max_component_bytes)
      (limit_exceeded component_bytes (length component) limits.max_component_bytes)

-- The outcome of the reserved-name test.
unfoldable pub not_reserved : Option Bool → Shown → Result Error (Unit {0})
not_reserved none path = err panic
not_reserved (some reserved) path = guard (not reserved) (invalid_path_component path reserved_name)

unfoldable pub validate_component : Bytes → Option MetainfoLimits → Shown → Result Error (Unit {0})
unfolding is_ascii_control is_drive_prefix within_component not_reserved
validate_component component limits path = do
  guard (not (bytes_eq component [])) (invalid_path_component path empty_component)
  guard (is_utf8 component) (invalid_path_component path not_utf8)
  guard (not (bytes_eq component (codes ".") || bytes_eq component (codes "..")))
      (invalid_path_component path dot_component)
  guard (not (contains b'/' component || contains b'\\' component))
      (invalid_path_component path separator)
  guard (not (any is_ascii_control component)) (invalid_path_component path control_character)
  guard (not (ends_with b'.' component || ends_with b' ' component))
      (invalid_path_component path dot_or_space_end)
  guard (not (is_drive_prefix component)) (invalid_path_component path drive_prefix)
  not_reserved (is_windows_reserved_name component) path
  within_component limits component

pub record FileEntry : Type 0 where
  pub components : List Bytes
  pub length : ℕ
  pub has_symlink : Bool

is_some : Option (List Bytes) → Bool
is_some none = false
is_some (some _) = true

entry_of : InfoFile → FileEntry
unfolding is_some
entry_of f = record { components = f.path; length = f.length; has_symlink = is_some f.symlink_path }

unfoldable pub file_entries : Info → Result Error (List FileEntry)
unfolding entry_of is_some
file_entries info = elim info.files [
  | some files ↦ elim files [ [] ↦ err empty_content | f ∷ fs ↦ ok (map entry_of (f ∷ fs)) ]
  | none ↦ do
    length ← ok_or info.length no_length
    name ← ok_or info.name no_name
    ok (
        record { components = name ∷ []; length = length; has_symlink = is_some info.symlink_path }
        ∷ [])
]
