-- ===== src/Base/Text.antt =====
-- A `str` as the list of its characters.
use Prim.Native.Nat.{ℕ, ◌+◌}
use mathlib.Core.List.{List, [], ◌∷◌, reverse}
use pubky_swarm.Base.Tests.{ltb, if◌then◌else◌}
use pubky_swarm.Base.Utf8.{is_whitespace}

abbrev pub Text : Type 0
Text = List ℕ

unfoldable pub trim_start : Text → Text
trim_start [] = []
trim_start (c ∷ s) = let rest = trim_start s in if is_whitespace c then rest else c ∷ s

-- `s.trim()`.
unfoldable pub trim : Text → Text
trim s = reverse (trim_start (reverse (trim_start s)))

-- `s.len()`, the bytes of the UTF-8 form.
unfoldable pub utf8_length : Text → ℕ
utf8_length [] = 0
utf8_length (c ∷ s) =
    (if ltb c 0x80 then 1 else if ltb c 0x800 then 2 else if ltb c 0x10000 then 3 else 4)
    + utf8_length s
