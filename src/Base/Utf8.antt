-- ===== src/Base/Utf8.antt =====
-- `str::from_utf8`, `str::chars`, `char::is_control`, `char::is_whitespace` and `str::trim`.
use pubky_swarm.Base.Tests.{ltb, leb, ◌==◌, if◌then◌else◌, all, any}
use pubky_swarm.Base.Bytes.{Bytes}
use Prim.Native.Nat.{ℕ, zero, suc, ◌+◌, ◌-◌, ◌*◌}
use mathlib.Core.Bool.{Bool, true, false, ◌&&◌, ◌||◌}
use mathlib.Core.Option.{Option, none, some}
use mathlib.Core.List.{List, [], ◌∷◌}

push : ℕ → Option (List ℕ) → Option (List ℕ)
push c none = none
push c (some cs) = some (c ∷ cs)

-- Between characters the first number is 0. Within one it is the number of bytes to come, the
-- next of which lies in `lo ..= hi`; `acc` holds the bits read. These are the ranges of
-- well-formed UTF-8: no overlong form, no surrogate, nothing above U+10FFFF.
decode_from : ℕ → ℕ → ℕ → ℕ → Bytes → Option (List ℕ)
unfolding push
decode_from zero lo hi acc [] = some []
decode_from (suc k) lo hi acc [] = none
decode_from (suc k) lo hi acc (b ∷ s) =
    let point = acc * 64 + (b - 0x80) in
    let done = push point (decode_from 0 0 0 0 s) in
    let more = decode_from k 0x80 0xbf point s in
    if leb lo b && leb b hi then (if k == 0 then done else more) else none
decode_from zero lo hi acc (b ∷ s) =
    let one = push b (decode_from 0 0 0 0 s) in
    let two = decode_from 1 0x80 0xbf (b - 0xc0) s in
    let three =
      decode_from 2 (if b == 0xe0 then 0xa0 else 0x80) (if b == 0xed then 0x9f else 0xbf) (b - 0xe0)
        s in
    let four =
      decode_from 3 (if b == 0xf0 then 0x90 else 0x80) (if b == 0xf4 then 0x8f else 0xbf) (b - 0xf0)
        s in
    if ltb b 0x80
    then one
    else if ltb b 0xc2
    then none
    else if ltb b 0xe0
    then two
    else if ltb b 0xf0
    then three
    else if ltb b 0xf5
    then four
    else none

unfoldable pub decode_utf8 : Bytes → Option (List ℕ)
unfolding decode_from
decode_utf8 = decode_from 0 0 0 0

unfoldable pub is_utf8 : Bytes → Bool
unfolding decode_utf8
is_utf8 s = elim (decode_utf8 s) [ none ↦ false | some _ ↦ true ]

-- `s.chars()`; a `str` is always well formed, so the default is never taken.
unfoldable pub chars : Bytes → List ℕ
unfolding decode_utf8
chars s = elim (decode_utf8 s) [ none ↦ [] | some cs ↦ cs ]

unfoldable pub is_control : ℕ → Bool
is_control c = ltb c 0x20 || (leb 0x7f c && leb c 0x9f)

-- The characters with the property White_Space.
unfoldable pub is_whitespace : ℕ → Bool
is_whitespace c =
    (leb 0x9 c && leb c 0xd)
    || c == 0x20
    || c == 0x85
    || c == 0xa0
    || c == 0x1680
    || (leb 0x2000 c && leb c 0x200a)
    || c == 0x2028
    || c == 0x2029
    || c == 0x202f
    || c == 0x205f
    || c == 0x3000

-- `s.trim().is_empty()`.
unfoldable pub is_blank : Bytes → Bool
unfolding chars is_whitespace
is_blank s = all is_whitespace (chars s)

-- `s.chars().any(char::is_control)`.
unfoldable pub has_control : Bytes → Bool
unfolding chars is_control
has_control s = any is_control (chars s)
