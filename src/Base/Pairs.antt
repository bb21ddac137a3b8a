-- ===== src/Base/Pairs.antt =====
-- Relations between every two elements of a list, and sorting.
use mathlib.Core.Logic.{inl, inr}
use mathlib.Core.Bool.{Bool}
use mathlib.Core.List.{List, [], ◌∷◌}
use pubky_swarm.Base.Tests.{Bool-cases}
use pubky_swarm.Base.Lists.{All}
use pubky_swarm.Base.Sort.{insert, sort}

-- A relation between every two elements, the earlier one first.
abbrev pub AllPairs {ℓ} : {A : Type ℓ} → (A → A → Type 0) → List A → Type 0
AllPairs R [] = Unit
AllPairs R (a ∷ as') = All (R a) as' × AllPairs R as'

module _ {ℓ} {A : Type ℓ} (lt : A → A → Bool) where
  All-insert : (P : A → Type 0) (a : A) (bs : List A) → All P (insert lt a bs) → P a × All P bs
  unfolding insert
  All-insert P a [] (h, hs) = (h, tt)
  All-insert P a (b ∷ bs) h = elim (Bool-cases (lt b a)) [
    | inl k ↦
        let (first, rest) = rw (insert, k) at h in
        let (p, q) = All-insert P a bs rest in (p, (first, q))
    | inr k ↦ rw (insert, k) at h
  ]

  All-sort : (P : A → Type 0) (as' : List A) → All P (sort lt as') → All P as'
  unfolding sort
  All-sort P [] h = tt
  All-sort P (a ∷ as') h = let (p, q) = All-insert P a (sort lt as') h in (p, All-sort P as' q)

  AllPairs-insert :
      (R : A → A → Type 0)
      → ((a b : A) → R a b → R b a)
      → (a : A) (bs : List A) → AllPairs R (insert lt a bs)
      → All (R a) bs × AllPairs R bs
  unfolding insert
  AllPairs-insert R s a [] h = (tt, tt)
  AllPairs-insert R s a (b ∷ bs) h = elim (Bool-cases (lt b a)) [
    | inl k ↦
        let (first, rest) = rw (insert, k) at h in
        let (back, others) = All-insert (R b) a bs first in
        let (p, q) = AllPairs-insert R s a bs rest in ((s b a back, p), (others, q))
    | inr k ↦ rw (insert, k) at h
  ]

  -- A symmetric relation between every two elements of the sorted list is one of the list.
  pub AllPairs-sort :
      (R : A → A → Type 0)
      → ((a b : A) → R a b → R b a)
      → (as' : List A) → AllPairs R (sort lt as')
      → AllPairs R as'
  unfolding sort
  AllPairs-sort R s [] h = tt
  AllPairs-sort R s (a ∷ as') h =
      let (p, q) = AllPairs-insert R s a (sort lt as') h in
      (All-sort (R a) as' p, AllPairs-sort R s as' q)

-- Neighbours in a transitive relation are related however far apart.
module _ {ℓ} {A : Type ℓ} (R : A → A → Type 0) where
  abbrev pub IsChain : List A → Type 0
  IsChain [] = Unit
  IsChain (a ∷ []) = Unit
  IsChain (a ∷ b ∷ bs) = R a b × IsChain (b ∷ bs)

  chain_rest :
      ((a b c : A) → R a b → R b c → R a c)
      → (a b : A) (bs : List A) → R a b
      → IsChain (b ∷ bs)
      → All (R a) bs
  chain_rest trans a b [] h k = tt
  chain_rest trans a b (c ∷ cs) h (k, ks) =
      (trans a b c h k, chain_rest trans a c cs (trans a b c h k) ks)

  pub IsChain-AllPairs :
      ((a b c : A) → R a b → R b c → R a c) → (as' : List A) → IsChain as' → AllPairs R as'
  IsChain-AllPairs trans [] h = tt
  IsChain-AllPairs trans (a ∷ []) h = (tt, tt)
  IsChain-AllPairs trans (a ∷ b ∷ bs) (h, hs) =
      ((h, chain_rest trans a b bs h hs), IsChain-AllPairs trans (b ∷ bs) hs)

pub All-imp {ℓ} :
    {A : Type ℓ} (P Q : A → Type 0) → ((a : A) → P a → Q a) → (as' : List A) → All P as' → All Q as'
All-imp P Q f [] h = tt
All-imp P Q f (a ∷ as') (h, hs) = (f a h, All-imp P Q f as' hs)

pub AllPairs-imp {ℓ} :
    {A : Type ℓ} (R S : A → A → Type 0)
    → ((a b : A) → R a b → S a b)
    → (as' : List A) → AllPairs R as'
    → AllPairs S as'
AllPairs-imp R S f [] h = tt
AllPairs-imp R S f (a ∷ as') (h, hs) = (All-imp (R a) (S a) (f a) as' h, AllPairs-imp R S f as' hs)
