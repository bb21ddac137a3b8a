-- ===== src/Protocol/Portable.antt =====
-- crates/swarm-protocol/src/lib.rs: `validate_text`, `validate_portable_path`,
-- `is_windows_reserved_name` and `validate_tags`.
pub mod Spec
pub mod Text
use Prim.Native.String.{String}
use pubky_swarm.Base.{
  ℕ, zero, suc, ◌≡◌, refl, Bool, true, false, not, ◌&&◌, ◌||◌, Option, none, some, List, [], ◌∷◌,
  map, arith, ltb, leb, ◌==◌, if◌then◌else◌, length, all, any,
}
use pubky_swarm.Base.Bytes.{
  Bytes, codes, bytes_eq, bytes_lt, strip_prefix, contains, upper_byte, is_ascii_lowercase,
  is_digit,
}
use pubky_swarm.Base.Utf8.{chars, is_blank, has_control}
use pubky_swarm.Base.Paths.{join, first_piece, components, is_absolute, is_normal, texts}
use pubky_swarm.Base.Result.{Result, ok, err, ◌>>◌, guard}
use pubky_swarm.Protocol.Error.{Error, invalid_field, invalid_path, says, expected_characters}

unfoldable pub validate_text : String → Bytes → ℕ → ℕ → Result Error (Unit {0})
validate_text field value minimum maximum =
    let length = length (chars value) in
    if ltb length minimum || ltb maximum length || (ltb 0 minimum && is_blank value)
    then err (invalid_field field (expected_characters minimum maximum length))
    else if has_control value
    then err (invalid_field field (says "control characters are not allowed"))
    else ok tt

-- `s.ends_with(c)` at a byte.
unfoldable pub ends_with : ℕ → Bytes → Bool
ends_with c [] = false
ends_with c (d ∷ []) = d == c
ends_with c (d ∷ e ∷ s) = ends_with c (e ∷ s)

-- `suffix.len() == 1 && matches!(suffix.as_bytes()[0], b'1'..=b'9')`.
is_serial_suffix : Bytes → Bool
is_serial_suffix (d ∷ []) = leb b'1' d && leb d b'9'
is_serial_suffix _ = false

-- `.or_else(..)` and `.is_some_and(..)` of the chain on the stem.
serial_name : Option Bytes → Option Bytes → Bool
unfolding is_serial_suffix
serial_name (some s) _ = is_serial_suffix s
serial_name none (some s) = is_serial_suffix s
serial_name none none = false

unfoldable pub is_windows_reserved_name : Bytes → Bool
unfolding first_piece upper_byte serial_name strip_prefix
is_windows_reserved_name component =
    let stem = map upper_byte (first_piece b'.' component) in
    bytes_eq stem (codes "CON")
    || bytes_eq stem (codes "PRN")
    || bytes_eq stem (codes "AUX")
    || bytes_eq stem (codes "NUL")
    || serial_name (strip_prefix (codes "COM") stem) (strip_prefix (codes "LPT") stem)

-- The test that refuses a component.
unfoldable pub is_unportable : Bytes → Bool
is_unportable text =
    bytes_eq text []
    || ltb 255 (length text)
    || contains b'\\' text
    || has_control text
    || ends_with b'.' text
    || ends_with b' ' text
    || is_windows_reserved_name text

unfoldable pub validate_portable_path : Bytes → Result Error (Unit {0})
validate_portable_path value =
    if bytes_eq value [] || ltb 4096 (length value) || is_absolute value
    then err (invalid_path value "path must be a non-empty relative path up to 4096 bytes")
    else if length (components value) == 0
        || ltb 64 (length (components value))
        || not (all is_normal (components value))
    then err (invalid_path value "path contains non-normal components")
    else if not (bytes_eq (join b'/' (texts (components value))) value)
    then err (invalid_path value "path is not in canonical `/`-separated form")
    else if any is_unportable (texts (components value))
    then err (invalid_path value "path contains a non-portable component")
    else ok tt

is_tag_byte : ℕ → Bool
is_tag_byte b = is_ascii_lowercase b || is_digit b || b == b'-'

unfoldable pub is_tag : Bytes → Bool
unfolding is_tag_byte
is_tag tag = not (bytes_eq tag []) && leb (length tag) 32 && all is_tag_byte tag

-- The loop over the tags, with the previous one.
unfoldable pub tags_from : Option Bytes → List Bytes → Result Error (Unit {0})
tags_from previous [] = ok tt
tags_from previous (tag ∷ tags) =
    let rest = tags_from (some tag) tags in
    if not (is_tag tag)
    then err (
        invalid_field "tags"
          (says "tags must be 1..=32 lowercase ASCII letters, digits, or hyphens"))
    else if (elim previous [ none ↦ false | some value ↦ not (bytes_lt value tag) ])
    then err (invalid_field "tags" (says "tags must be sorted and unique"))
    else rest

unfoldable pub validate_tags : List Bytes → Result Error (Unit {0})
unfolding tags_from
validate_tags tags =
    if ltb 16 (length tags)
    then err (invalid_field "tags" (says "maximum is 16"))
    else tags_from none tags

reserved_names :
    (is_windows_reserved_name (codes "aux.txt") ≡ true)
    × (is_windows_reserved_name (codes "com7") ≡ true)
    × (is_windows_reserved_name (codes "com0") ≡ false)
    × (is_windows_reserved_name (codes "console") ≡ false)
unfolding is_windows_reserved_name bytes_eq
reserved_names = (refl, refl, refl, refl)
