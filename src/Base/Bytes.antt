-- ===== src/Base/Bytes.antt =====
-- Byte strings, as lists of numbers below 256, and the functions of Rust's `str` and slices that
-- the program calls on them. A `str` is the list of its UTF-8 bytes.
use Prim.Native.Char.{code}
use Prim.Native.String.{String}
use pubky_swarm.Base.Tests.{ltb, leb, ◌==◌, if◌then◌else◌, ==_iff, any}
use pubky_swarm.Base.Lists.{length, All}
use pubky_swarm.Base.Order.{
  lex, list_eq, list_eq_iff, StrictOrder, ltb-StrictOrder, lex-StrictOrder,
}
use Prim.Native.Nat.{ℕ, zero, suc, ◌+◌, ◌-◌, ◌*◌, ◌/◌, ◌%◌, ◌^◌, ◌<◌}
use mathlib.Core.Path.{◌≡◌, refl}
use mathlib.Core.Logic.{◌↔◌}
use mathlib.Core.Bool.{Bool, true, false, ◌&&◌}
use mathlib.Core.Option.{Option, none, some}
use mathlib.Core.List.{List, [], ◌∷◌, ◌++◌}
use native.Mathlib.Omega.{arith}

abbrev pub Bytes : Type 0
Bytes = List ℕ

-- The bytes of an ASCII literal.
abbrev pub codes : String → Bytes
codes String.[] = []
codes (String.◌∷◌ c s) = code c ∷ codes s

abbrev pub IsByte : ℕ → Type 0
IsByte b = b < 256

abbrev pub IsBytes : Bytes → Type 0
IsBytes = All IsByte

abbrev pub u64_max : ℕ
u64_max = 2 ^ 64 - 1

-- `==` and `<` of `str` and `[u8]`.
unfoldable pub bytes_eq : Bytes → Bytes → Bool
bytes_eq = list_eq ◌==◌

unfoldable pub bytes_lt : Bytes → Bytes → Bool
bytes_lt = lex ltb

pub bytes_eq_iff : (a b : Bytes) → (bytes_eq a b ≡ true) ↔ (a ≡ b)
unfolding bytes_eq
bytes_eq_iff = list_eq_iff ◌==◌ ==_iff

pub bytes_eq_refl : (a : Bytes) → bytes_eq a a ≡ true
bytes_eq_refl a = (bytes_eq_iff a a).1 refl

pub bytes_lt-StrictOrder : StrictOrder bytes_lt
unfolding bytes_lt
bytes_lt-StrictOrder = lex-StrictOrder ltb ltb-StrictOrder

-- `s.strip_prefix(p)`.
unfoldable pub strip_prefix : Bytes → Bytes → Option Bytes
strip_prefix [] s = some s
strip_prefix (c ∷ p) [] = none
strip_prefix (c ∷ p) (d ∷ s) = if c == d then strip_prefix p s else none

pub strip_prefix-append : (p s : Bytes) → strip_prefix p (p ++ s) ≡ some s
unfolding strip_prefix
strip_prefix-append [] s = refl
strip_prefix-append (c ∷ p) s = ground (arith, strip_prefix-append p s)

pub strip_prefix-eq-some : (p s r : Bytes) → strip_prefix p s ≡ some r → s ≡ p ++ r
unfolding strip_prefix
strip_prefix-eq-some [] s r h = ground arith
strip_prefix-eq-some (c ∷ p) [] r h = cc
strip_prefix-eq-some (c ∷ p) (d ∷ s) r h = ground (arith, strip_prefix-eq-some p s r)

-- `s.starts_with(p)`.
unfoldable pub starts_with : Bytes → Bytes → Bool
unfolding strip_prefix
starts_with p s = elim (strip_prefix p s) [ none ↦ false | some _ ↦ true ]

pub starts_with-append : (p s : Bytes) → starts_with p (p ++ s) ≡ true
unfolding starts_with
starts_with-append p s = rw (strip_prefix-append p s, starts_with)

-- `s.split_once(c)` at a byte: what stands before and after the first occurrence.
unfoldable pub split_once : ℕ → Bytes → Option (Bytes × Bytes)
split_once c [] = none
split_once c (d ∷ s) = elim (d == c) [
  | true ↦ some ([], s)
  | false ↦ elim (split_once c s) [ none ↦ none | some (a, b) ↦ some (d ∷ a, b) ]
]

-- `s.contains(c)` at a byte.
unfoldable pub contains : ℕ → Bytes → Bool
contains c = any (λ d. d == c)

-- `s.to_ascii_lowercase()` and `s.to_ascii_uppercase()`, a byte at a time.
unfoldable pub lower_byte : ℕ → ℕ
lower_byte b = if leb b'A' b && leb b b'Z' then b + 32 else b

unfoldable pub upper_byte : ℕ → ℕ
upper_byte b = if leb b'a' b && leb b b'z' then b - 32 else b

abbrev pub is_digit : ℕ → Bool
is_digit b = leb b'0' b && leb b b'9'

abbrev pub is_ascii_lowercase : ℕ → Bool
is_ascii_lowercase b = leb b'a' b && leb b b'z'

abbrev pub is_ascii_uppercase : ℕ → Bool
is_ascii_uppercase b = leb b'A' b && leb b b'Z'

-- `v.to_be_bytes()` of an integer of `n` bytes, and `from_be_bytes`.
unfoldable pub to_be_bytes : ℕ → ℕ → Bytes
to_be_bytes zero v = []
to_be_bytes (suc n) v = (v / 256 ^ n % 256) ∷ to_be_bytes n v

unfoldable pub from_be_bytes : ℕ → Bytes → ℕ
from_be_bytes acc [] = acc
from_be_bytes acc (b ∷ bs) = from_be_bytes (acc * 256 + b) bs

pub length-to_be_bytes : (n v : ℕ) → length (to_be_bytes n v) ≡ n
unfolding to_be_bytes
length-to_be_bytes zero v = refl
length-to_be_bytes (suc n) v = omega (arith, length-to_be_bytes n v)

pub to_be_bytes-IsBytes : (n v : ℕ) → IsBytes (to_be_bytes n v)
unfolding to_be_bytes
to_be_bytes-IsBytes zero v = tt
to_be_bytes-IsBytes (suc n) v = (omega arith, to_be_bytes-IsBytes n v)

pub from-to_be_bytes : (v : ℕ) → v < 2 ^ 64 → from_be_bytes 0 (to_be_bytes 8 v) ≡ v
unfolding to_be_bytes from_be_bytes
from-to_be_bytes v h = omega arith

abbrev pub Is8 : Bytes → Type 0
Is8 xs = length xs ≡ 8

cons_eq : {a b : ℕ} {xs ys : Bytes} → a ≡ b → xs ≡ ys → (a ∷ xs) ≡ (b ∷ ys)
cons_eq p q = cc

to-from_8 :
    (a b c d e f g h : ℕ)
    → IsBytes (a ∷ b ∷ c ∷ d ∷ e ∷ f ∷ g ∷ h ∷ [])
    → to_be_bytes 8 (from_be_bytes 0 (a ∷ b ∷ c ∷ d ∷ e ∷ f ∷ g ∷ h ∷ []))
      ≡ a ∷ b ∷ c ∷ d ∷ e ∷ f ∷ g ∷ h ∷ []
unfolding to_be_bytes from_be_bytes
to-from_8 a b c d e f g h k = cons_eq (omega arith) (
    cons_eq (omega arith) (
      cons_eq (omega arith) (
        cons_eq (omega arith) (
          cons_eq (omega arith)
            (cons_eq (omega arith) (cons_eq (omega arith) (cons_eq (omega arith) refl)))))))

pub to-from_be_bytes : (xs : Bytes) → Is8 xs → IsBytes xs → to_be_bytes 8 (from_be_bytes 0 xs) ≡ xs
to-from_be_bytes (a ∷ b ∷ c ∷ d ∷ e ∷ f ∷ g ∷ h ∷ []) n k = to-from_8 a b c d e f g h k
to-from_be_bytes _ n k = absurd (omega arith)

pub from_be_bytes-le : (xs : Bytes) → Is8 xs → IsBytes xs → from_be_bytes 0 xs < 2 ^ 64
unfolding from_be_bytes
from_be_bytes-le (a ∷ b ∷ c ∷ d ∷ e ∷ f ∷ g ∷ h ∷ []) n k = omega arith
from_be_bytes-le _ n k = absurd (omega arith)
