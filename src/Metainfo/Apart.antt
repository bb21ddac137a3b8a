-- ===== src/Metainfo/Apart.antt =====
-- Sorting brings an ancestor next to a descendant: paths compared part by part, of which no two
-- neighbours collide, do not collide at all.
use pubky_swarm.Base.{◌≡◌, refl, inl, inr, true, false, not, List, [], ◌∷◌, Bool-cases, arith}
use pubky_swarm.Base.Bytes.{Bytes, bytes_eq, bytes_lt, bytes_eq_iff, bytes_lt-StrictOrder}
use pubky_swarm.Base.Order.{list_eq_iff, StrictOrder, asym, lex-StrictOrder}
use pubky_swarm.Base.Result.{ok, guard-eq-ok}
use pubky_swarm.Base.Pairs.{AllPairs, AllPairs-sort, AllPairs-imp, IsChain, IsChain-AllPairs}
use pubky_swarm.Base.Sort.{sort, IsSorted, sort-IsSorted}
use pubky_swarm.Metainfo.Validate.{path_eq, path_lt, is_ancestor, check_neighbours}

-- Neither path is the other or lies below it.
abbrev pub Apart : List Bytes → List Bytes → Type 0
Apart a b = (is_ancestor a b ≡ false) × (is_ancestor b a ≡ false)

path_lt-StrictOrder : StrictOrder path_lt
path_lt-StrictOrder = lex-StrictOrder bytes_lt bytes_lt-StrictOrder

-- An ancestor is not greater.
is_ancestor-not_lt : (a b : List Bytes) → is_ancestor a b ≡ true → path_lt b a ≡ false
unfolding is_ancestor
is_ancestor-not_lt [] [] h = refl
is_ancestor-not_lt [] (y ∷ ys) h = refl
is_ancestor-not_lt (x ∷ xs) [] h = cc
is_ancestor-not_lt (x ∷ xs) (y ∷ ys) h =
    ground (arith, (bytes_eq_iff x y).0, bytes_lt-StrictOrder.irrefl x, is_ancestor-not_lt xs ys)

-- What stands between a path and its descendant is a descendant.
between :
    (a b c : List Bytes)
    → path_lt a b ≡ true
    → path_lt b c ≡ true
    → is_ancestor a c ≡ true
    → is_ancestor a b ≡ true
unfolding is_ancestor
between [] b c h k l = refl
between (x ∷ xs) b [] h k l = cc
between (x ∷ xs) [] (z ∷ zs) h k l = cc
between (x ∷ xs) (y ∷ ys) (z ∷ zs) h k l = ground (
  arith,
  (bytes_eq_iff x z).0,
  (bytes_eq_iff x y).1,
  asym bytes_lt bytes_lt-StrictOrder x y,
  bytes_lt-StrictOrder.total x y,
  between xs ys zs,
)

-- What a smaller path is to a greater one: not below it.
Before : List Bytes → List Bytes → Type 0
Before a b = (path_lt a b ≡ true) × (is_ancestor a b ≡ false)

Before-Apart : (a b : List Bytes) → Before a b → Apart a b
unfolding Before
Before-Apart a b (h, k) = elim (Bool-cases (is_ancestor b a)) [
  | inl l ↦ cc (is_ancestor-not_lt b a l, h)
  | inr l ↦ (k, l)
]

Before-trans : (a b c : List Bytes) → Before a b → Before b c → Before a c
unfolding Before
Before-trans a b c (h, k) (h', k') = (
  path_lt-StrictOrder.trans a b c h h',
  elim (Bool-cases (is_ancestor a c)) [ inl l ↦ cc (between a b c h h' l, k) | inr l ↦ l ],
)

path_eq_iff_refl : (a : List Bytes) → path_eq a a ≡ true
path_eq_iff_refl a = (list_eq_iff bytes_eq bytes_eq_iff a a).1 refl

neighbours-Before :
    (a b : List Bytes)
    → path_lt b a ≡ false
    → not (path_eq a b) ≡ true
    → not (is_ancestor a b) ≡ true
    → Before a b
unfolding Before
neighbours-Before a b h k l = elim (Bool-cases (path_lt a b)) [
  | inl m ↦ (m, ground arith)
  | inr m ↦
      let same : a ≡ b = path_lt-StrictOrder.total a b m h in
      cc (rw (← same, path_eq_iff_refl a) at k)
]

check_neighbours-IsChain :
    (as' : List (List Bytes))
    → IsSorted path_lt as'
    → check_neighbours as' ≡ ok tt
    → IsChain Before as'
unfolding check_neighbours
check_neighbours-IsChain [] h e = tt
check_neighbours-IsChain (a ∷ []) h e = tt
check_neighbours-IsChain (a ∷ b ∷ bs) (h, hs) e =
    let (k, e₁) = guard-eq-ok (not (path_eq a b)) _ _ e in
    let (l, e₂) = guard-eq-ok (not (is_ancestor a b)) _ _ e₁ in
    (neighbours-Before a b h k l, check_neighbours-IsChain (b ∷ bs) hs e₂)

-- When the comparison of neighbours in the sorted list finds no collision, no two of the paths,
-- in whatever order, are equal or one below the other.
pub check_neighbours-AllPairs :
    (paths : List (List Bytes))
    → check_neighbours (sort path_lt paths) ≡ ok tt
    → AllPairs Apart paths
check_neighbours-AllPairs paths e =
    AllPairs-sort path_lt Apart (λ a b (h, k). (k, h)) paths
      (AllPairs-imp Before Apart Before-Apart (sort path_lt paths) (
        IsChain-AllPairs Before Before-trans (sort path_lt paths) (
          check_neighbours-IsChain (sort path_lt paths)
            (sort-IsSorted path_lt (asym path_lt path_lt-StrictOrder) paths) e)))
