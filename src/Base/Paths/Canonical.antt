-- ===== src/Base/Paths/Canonical.antt =====
-- The components of a canonical path are the pieces of its split.
use pubky_swarm.Base.Tests.{all}
use pubky_swarm.Base.Bytes.{Bytes, bytes_eq, contains}
use pubky_swarm.Base.Lists.{All}
use mathlib.Core.Path.{◌≡◌, refl, ap, sym}
use mathlib.Core.Logic.{inl, inr, ◌⊎◌, ◌≢◌}
use mathlib.Core.Bool.{true, false}
use mathlib.Core.Option.{none, some}
use mathlib.Core.List.{List, [], ◌∷◌}
use native.Mathlib.Omega.{arith}
use pubky_swarm.Base.Paths.{
  split_rest, split, first_piece, join, normal, parent_dir, Component, component, components_of,
  is_absolute, components, is_normal, texts, IsPlain, split-All, split-join,
}

-- A piece is skipped, refused by `is_normal`, or plain.
component-cases :
    (p : Bytes)
    → (component p ≡ none)
      ⊎ ((component p ≡ some parent_dir) ⊎ ((component p ≡ some (normal p)) × IsPlain p))
unfolding component
component-cases p = ground arith

component-IsPlain : (p : Bytes) → IsPlain p → component p ≡ some (normal p)
unfolding component
component-IsPlain p h = ground arith

components_of-cons :
    (p : Bytes) (ps : List Bytes) (c : Component)
    → component p ≡ some c
    → components_of (p ∷ ps) ≡ c ∷ components_of ps
unfolding components_of
components_of-cons p ps c e = ground arith

components_of-skip :
    (p : Bytes) (ps : List Bytes) → component p ≡ none → components_of (p ∷ ps) ≡ components_of ps
unfolding components_of
components_of-skip p ps e = ground arith

-- The names among the components of some pieces are plain, and free of what the pieces are.
texts-IsPlain :
    (ps : List Bytes)
    → all is_normal (components_of ps) ≡ true
    → All IsPlain (texts (components_of ps))
texts-IsPlain [] h = unfold components_of in tt
texts-IsPlain (p ∷ ps) h = elim (component-cases p) [
  | inl e ↦ rw (components_of-skip p ps e) (texts-IsPlain ps (rw (components_of-skip p ps e) at h))
  | inr (inl e) ↦ cc (ap (all is_normal) (components_of-cons p ps parent_dir e))
  | inr (inr (e, plain)) ↦
      rw (components_of-cons p ps (normal p) e)
        (plain, texts-IsPlain ps (rw (components_of-cons p ps (normal p) e) at h))
]

texts-free :
    (ps : List Bytes)
    → all is_normal (components_of ps) ≡ true
    → All (λ q. contains b'/' q ≡ false) ps
    → All (λ q. contains b'/' q ≡ false) (texts (components_of ps))
texts-free [] h f = unfold components_of in tt
texts-free (p ∷ ps) h f = elim (component-cases p) [
  | inl e ↦ rw (components_of-skip p ps e) (texts-free ps (rw (components_of-skip p ps e) at h) f.1)
  | inr (inl e) ↦ cc (ap (all is_normal) (components_of-cons p ps parent_dir e))
  | inr (inr (e, plain)) ↦
      rw (components_of-cons p ps (normal p) e)
        (f.0, texts-free ps (rw (components_of-cons p ps (normal p) e) at h) f.1)
]

components_of-IsPlain :
    (ps : List Bytes)
    → All IsPlain ps
    → (texts (components_of ps) ≡ ps) × (all is_normal (components_of ps) ≡ true)
components_of-IsPlain [] h = unfold components_of in (refl, refl)
components_of-IsPlain (p ∷ ps) h =
    let e = components_of-cons p ps (normal p) (component-IsPlain p h.0) in
    let ih = components_of-IsPlain ps h.1 in rw e (ap (◌∷◌ p) ih.0, ih.1)

-- A path whose components are all names has no root and no leading `.`.
components-normal :
    (s : Bytes) → all is_normal (components s) ≡ true → components s ≡ components_of (split b'/' s)
unfolding components
components-normal s h = ground arith

-- The components of a path in canonical form are its pieces, each of them plain.
pub components-canonical :
    (s : Bytes)
    → all is_normal (components s) ≡ true
    → s ≢ []
    → join b'/' (texts (components s)) ≡ s
    → (texts (components s) ≡ split b'/' s) × All IsPlain (split b'/' s)
unfolding join
components-canonical s h ne j =
    let e = components-normal s h in
    let h' = rw e at h in
    let j' = rw e at j in
    let free = texts-free (split b'/' s) h' (split-All b'/' s) in
    let plain = texts-IsPlain (split b'/' s) h' in
    let same = pieces (texts (components_of (split b'/' s))) free s ne j' in
    (rw e same, rw same at plain)
  where
    pieces :
        (ts : List Bytes)
        → All (λ q. contains b'/' q ≡ false) ts
        → (s : Bytes) → s ≢ []
        → join b'/' ts ≡ s
        → ts ≡ split b'/' s
    pieces [] f s ne j = absurd (ne (sym j))
    pieces (t ∷ ts) f s ne j = rw (← j) (sym (split-join b'/' t ts f))

not_absolute : (s : Bytes) → bytes_eq (first_piece b'/' s) [] ≡ false → is_absolute s ≡ false
unfolding is_absolute first_piece split_rest bytes_eq
not_absolute [] h = cc
not_absolute (c ∷ s) h = ground arith

-- A path all of whose pieces are plain is relative, and its components are its pieces.
pub components-IsPlain :
    (s : Bytes)
    → All IsPlain (split b'/' s)
    → (is_absolute s ≡ false)
      × (texts (components s) ≡ split b'/' s)
      × (all is_normal (components s) ≡ true)
unfolding components split first_piece
components-IsPlain s h =
    let rel = not_absolute s h.0.0 in
    let (t, n) = components_of-IsPlain (split b'/' s) h in rw (rel, h.0.1) (refl, t, n)
