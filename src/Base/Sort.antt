-- ===== src/Base/Sort.antt =====
-- Rust's stable sort, as insertion sort over a test `lt`: the result of a stable sort is determined.
use mathlib.Core.Path.{◌≡◌, refl}
use mathlib.Core.Logic.{inl, inr}
use mathlib.Core.Bool.{Bool, true, false}
use mathlib.Core.List.{List, [], ◌∷◌, Perm}
use mathlib.Core.List.Perm
use pubky_swarm.Base.Tests.{if◌then◌else◌, Bool-cases}

module _ {ℓ} {A : Type ℓ} where
  unfoldable pub insert : (A → A → Bool) → A → List A → List A
  insert lt a [] = a ∷ []
  insert lt a (b ∷ bs) = if lt b a then b ∷ insert lt a bs else a ∷ b ∷ bs

  unfoldable pub sort : (A → A → Bool) → List A → List A
  unfolding insert
  sort lt [] = []
  sort lt (a ∷ as') = insert lt a (sort lt as')

  -- No element stands before a smaller one next to it.
  abbrev pub IsSorted : (A → A → Bool) → List A → Type 0
  IsSorted lt [] = Unit
  IsSorted lt (a ∷ []) = Unit
  IsSorted lt (a ∷ b ∷ bs) = (lt b a ≡ false) × IsSorted lt (b ∷ bs)

  insert-perm : (lt : A → A → Bool) (a : A) (bs : List A) → Perm (insert lt a bs) (a ∷ bs)
  unfolding insert
  insert-perm lt a [] = Perm.refl (a ∷ [])
  insert-perm lt a (b ∷ bs) = elim (Bool-cases (lt b a)) [
    | inl h ↦ rw h (Perm.trans (Perm.cons b (insert-perm lt a bs)) (Perm.swap a b bs))
    | inr h ↦ rw h (Perm.refl (a ∷ b ∷ bs))
  ]

  pub sort-perm : (lt : A → A → Bool) (as' : List A) → Perm (sort lt as') as'
  unfolding sort
  sort-perm lt [] = Perm.refl []
  sort-perm lt (a ∷ as') =
      Perm.trans (insert-perm lt a (sort lt as')) (Perm.cons a (sort-perm lt as'))

  -- Sorting what is sorted changes nothing.
  pub sort_sorted : (lt : A → A → Bool) (as' : List A) → IsSorted lt as' → sort lt as' ≡ as'
  unfolding sort
  sort_sorted lt [] h = refl
  sort_sorted lt (a ∷ []) h = refl
  sort_sorted lt (a ∷ b ∷ bs) h = rw (sort_sorted lt (b ∷ bs) h.1, h.0) refl

  insert-IsSorted :
      (lt : A → A → Bool)
      → ((a b : A) → lt a b ≡ true → lt b a ≡ false)
      → (a : A) (bs : List A) → IsSorted lt bs
      → IsSorted lt (insert lt a bs)
  unfolding insert
  insert-IsSorted lt asym a [] h = tt
  insert-IsSorted lt asym a (b ∷ []) h = elim (Bool-cases (lt b a)) [
    | inl k ↦ rw (insert, k) (asym b a k, tt)
    | inr k ↦ rw (insert, k) (k, tt)
  ]
  insert-IsSorted lt asym a (b ∷ c ∷ cs) (h, hs) = elim (Bool-cases (lt b a)) [
    | inr k ↦ rw (insert, k) (k, (h, hs))
    | inl k ↦ elim (Bool-cases (lt c a)) [
      | inr l ↦ rw (insert, k, insert, l) (asym b a k, (l, hs))
      | inl l ↦
          let rest = insert-IsSorted lt asym a (c ∷ cs) hs in
          rw (insert, k, insert, l) (h, rw (insert, l) at rest)
    ]
  ]

  pub sort-IsSorted :
      (lt : A → A → Bool)
      → ((a b : A) → lt a b ≡ true → lt b a ≡ false)
      → (as' : List A) → IsSorted lt (sort lt as')
  unfolding sort
  sort-IsSorted lt asym [] = tt
  sort-IsSorted lt asym (a ∷ as') =
      insert-IsSorted lt asym a (sort lt as') (sort-IsSorted lt asym as')
