-- ===== src/Base/Split.antt =====
-- Lemmas on `contains`, `split_once` and the empty byte string.
use Prim.Native.Nat.{ℕ, ◌<◌}
use mathlib.Core.Path.{◌≡◌, refl}
use mathlib.Core.Logic.{◌↔◌, inl, inr}
use mathlib.Core.Bool.{false, ◌||◌}
use mathlib.Core.Option.{some}
use mathlib.Core.List.{[], ◌∷◌, ◌++◌}
use native.Mathlib.Omega.{arith}
use pubky_swarm.Base.Tests.{◌==◌, Bool-cases, Option-cases}
use pubky_swarm.Base.Lists.{length}
use pubky_swarm.Base.Bytes.{Bytes, bytes_eq, contains, split_once}

pub contains-append : (c : ℕ) (a b : Bytes) → contains c (a ++ b) ≡ (contains c a || contains c b)
unfolding contains
contains-append c [] b = refl
contains-append c (d ∷ a) b = ground (arith, contains-append c a b)

pub split_once-append :
    (c : ℕ) (a b : Bytes) → contains c a ≡ false → split_once c (a ++ c ∷ b) ≡ some (a, b)
unfolding split_once contains
split_once-append c [] b h = ground arith
split_once-append c (d ∷ a) b h =
    let (k, l) : (d == c ≡ false) × (contains c a ≡ false) = ground (arith, contains) in
    rw (split_once, k, split_once-append c a b l)

pub split_once-eq-some : (c : ℕ) (v a b : Bytes) → split_once c v ≡ some (a, b) → v ≡ a ++ c ∷ b
unfolding split_once
split_once-eq-some c [] a b h = cc
split_once-eq-some c (d ∷ v) a b h = elim (Bool-cases (d == c)) [
  | inl k ↦ ground (arith, k)
  | inr k ↦ elim (Option-cases (split_once c v)) [
    | inl none_is ↦ cc (rw (split_once, k, none_is) at h)
    | inr ((a', b'), some_is) ↦
        let pair_is : some (d ∷ a', b') ≡ some (a, b) = rw (split_once, k, some_is) at h in
        let rest : v ≡ a' ++ c ∷ b' = split_once-eq-some c v a' b' some_is in
        ground (arith, pair_is, rest)
  ]
]

pub bytes_eq_nil_iff : (s : Bytes) → (bytes_eq s [] ≡ false) ↔ (0 < length s)
unfolding bytes_eq
bytes_eq_nil_iff [] = ground arith
bytes_eq_nil_iff (b ∷ s) = ground arith
