-- ===== src/Base/Paths.antt =====
-- `str::split` at a byte, `join`, and `std::path::Path::components` on Unix.
pub mod Canonical
use pubky_swarm.Base.Tests.{◌==◌, if◌then◌else◌, all, ==_iff, Bool-cases}
use pubky_swarm.Base.Bytes.{Bytes, codes, bytes_eq, contains}
use pubky_swarm.Base.Lists.{All}
use Prim.Native.Nat.{ℕ}
use mathlib.Core.Path.{◌≡◌, refl, ap, sym}
use mathlib.Core.Logic.{inl, inr, ◌⊎◌, ◌≢◌}
use mathlib.Core.Bool.{Bool, true, false}
use mathlib.Core.Option.{Option, none, some}
use mathlib.Core.List.{List, [], ◌∷◌, ◌++◌, append-nil}
use native.Mathlib.Omega.{arith}

-- `s.split(c)`: what stands before the first `c`, and the later pieces.
split_rest : ℕ → Bytes → Bytes × List Bytes
split_rest c [] = ([], [])
split_rest c (d ∷ s) =
    let (piece, pieces) = split_rest c s in
    if d == c then ([], piece ∷ pieces) else (d ∷ piece, pieces)

unfoldable pub split : ℕ → Bytes → List Bytes
unfolding split_rest
split c s = let (piece, pieces) = split_rest c s in piece ∷ pieces

-- `s.split(c).next()`, which is there always.
unfoldable pub first_piece : ℕ → Bytes → Bytes
unfolding split_rest
first_piece c s = (split_rest c s).0

-- `pieces.join(c)`.
join_rest : ℕ → List Bytes → Bytes
join_rest c [] = []
join_rest c (p ∷ ps) = c ∷ (p ++ join_rest c ps)

unfoldable pub join : ℕ → List Bytes → Bytes
unfolding join_rest
join c [] = []
join c (p ∷ ps) = p ++ join_rest c ps

pub data Component : Type 0 where
  root_dir cur_dir parent_dir : Component
  normal : Bytes → Component

-- `.` and an empty piece are skipped inside a path.
component : Bytes → Option Component
component p =
    if bytes_eq p []
    then none
    else if bytes_eq p (codes ".")
    then none
    else if bytes_eq p (codes "..")
    then some parent_dir
    else some (normal p)

components_of : List Bytes → List Component
unfolding component
components_of [] = []
components_of (p ∷ ps) = elim (component p) [
  | none ↦ components_of ps
  | some c ↦ c ∷ components_of ps
]

unfoldable pub is_absolute : Bytes → Bool
is_absolute [] = false
is_absolute (c ∷ s) = c == b'/'

-- A leading `.` is kept where the path has no root.
unfoldable pub components : Bytes → List Component
unfolding components_of is_absolute split first_piece
components s =
    if is_absolute s
    then root_dir ∷ components_of (split b'/' s)
    else if bytes_eq (first_piece b'/' s) (codes ".")
    then cur_dir ∷ components_of (split b'/' s)
    else components_of (split b'/' s)

abbrev pub is_normal : Component → Bool
is_normal (normal _) = true
is_normal _ = false

-- `component.as_os_str()`.
abbrev pub component_text : Component → Bytes
component_text root_dir = codes "/"
component_text cur_dir = codes "."
component_text parent_dir = codes ".."
component_text (normal p) = p

abbrev pub texts : List Component → List Bytes
texts [] = []
texts (c ∷ cs) = component_text c ∷ texts cs

-- No piece of a split holds the separator.
split_rest_free :
    (c : ℕ) (s : Bytes)
    → (contains c (split_rest c s).0 ≡ false) × All (λ p. contains c p ≡ false) (split_rest c s).1
unfolding split_rest contains
split_rest_free c [] = (refl, tt)
split_rest_free c (d ∷ s) = elim (Bool-cases (d == c)) [
  | inl e ↦ rw e (refl, split_rest_free c s)
  | inr n ↦ rw n (ground (arith, (split_rest_free c s).0), (split_rest_free c s).1)
]

pub split-All : (c : ℕ) (s : Bytes) → All (λ p. contains c p ≡ false) (split c s)
unfolding split
split-All c s = split_rest_free c s

-- Splitting and joining are inverse.
join_rest-split : (c : ℕ) (s : Bytes) → (split_rest c s).0 ++ join_rest c (split_rest c s).1 ≡ s
unfolding split_rest join_rest
join_rest-split c [] = refl
join_rest-split c (d ∷ s) = elim (Bool-cases (d == c)) [
  | inl e ↦ rw e (ground (arith, join_rest-split c s, ==_iff d c))
  | inr n ↦ rw n (ap (◌∷◌ d) (join_rest-split c s))
]

pub join-split : (c : ℕ) (s : Bytes) → join c (split c s) ≡ s
unfolding join split
join-split c s = join_rest-split c s

split_rest-append :
    (c : ℕ) (p s : Bytes)
    → contains c p ≡ false
    → split_rest c (p ++ s) ≡ (p ++ (split_rest c s).0, (split_rest c s).1)
unfolding split_rest contains
split_rest-append c [] s h = refl
split_rest-append c (d ∷ p) s h = elim (Bool-cases (d == c)) [
  | inl e ↦ ground arith
  | inr n ↦ rw (n, split_rest-append c p s (ground arith))
]

split_rest-join_rest :
    (c : ℕ) (ps : List Bytes)
    → All (λ p. contains c p ≡ false) ps
    → split_rest c (join_rest c ps) ≡ ([], ps)
unfolding split_rest join_rest
split_rest-join_rest c [] h = refl
split_rest-join_rest c (p ∷ ps) h =
    rw
      (
        (==_iff c c).1 refl,
        split_rest-append c p (join_rest c ps) h.0,
        split_rest-join_rest c ps h.1,
      )
      (rw append-nil)

pub split-join :
    (c : ℕ) (p : Bytes) (ps : List Bytes)
    → All (λ q. contains c q ≡ false) (p ∷ ps)
    → split c (join c (p ∷ ps)) ≡ p ∷ ps
unfolding split join
split-join c p ps h =
    rw (split_rest-append c p (join_rest c ps) h.0, split_rest-join_rest c ps h.1) (rw append-nil)

-- A piece that names a file or directory and is no special name.
abbrev pub IsPlain : Bytes → Type 0
IsPlain p =
    (bytes_eq p [] ≡ false) × (bytes_eq p (codes ".") ≡ false) × (bytes_eq p (codes "..") ≡ false)
