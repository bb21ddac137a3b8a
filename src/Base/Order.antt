-- ===== src/Base/Order.antt =====
-- Strict orders given by a Boolean test, the lexicographic order of lists (Rust's `Ord` of `str`,
-- slices and `Vec`), and the equality test that such an order decides.
use mathlib.Core.Path.{◌≡◌, refl}
use mathlib.Core.Logic.{inl, inr, ◌↔◌}
use mathlib.Core.Bool.{Bool, true, false, ◌&&◌}
use mathlib.Core.List.{List, [], ◌∷◌}
use native.Mathlib.Omega.{arith}
use pubky_swarm.Base.Tests.{ltb, if◌then◌else◌, Bool-cases}

-- What Rust's `Ord` promises of `<`.
pub record StrictOrder {ℓ} {A : Type ℓ} (lt : A → A → Bool) : Type ℓ where
  pub irrefl : (a : A) → lt a a ≡ false
  pub trans : (a b c : A) → lt a b ≡ true → lt b c ≡ true → lt a c ≡ true
  pub total : (a b : A) → lt a b ≡ false → lt b a ≡ false → a ≡ b

pub ltb-StrictOrder : StrictOrder ltb
ltb-StrictOrder = record {
  irrefl = λ a. ground arith;
  trans = λ a b c h k. ground arith;
  total = λ a b h k. ground arith;
}

module _ {ℓ} {A : Type ℓ} where
  abbrev pub lex : (A → A → Bool) → List A → List A → Bool
  lex lt [] [] = false
  lex lt [] (y ∷ ys) = true
  lex lt (x ∷ xs) [] = false
  lex lt (x ∷ xs) (y ∷ ys) = if lt x y then true else if lt y x then false else lex lt xs ys

  pub asym : (lt : A → A → Bool) → StrictOrder lt → (a b : A) → lt a b ≡ true → lt b a ≡ false
  asym lt o a b h = elim (Bool-cases (lt b a)) [
    | inl k ↦ cc (o.irrefl a, o.trans a b a h k)
    | inr k ↦ k
  ]

module _ {ℓ} {A : Type ℓ} (lt : A → A → Bool) (o : StrictOrder lt) where
  lex_irrefl : (a : List A) → lex lt a a ≡ false
  lex_irrefl [] = refl
  lex_irrefl (x ∷ xs) = ground (arith, o.irrefl x, lex_irrefl xs)

  lex-total : (a b : List A) → lex lt a b ≡ false → lex lt b a ≡ false → a ≡ b
  lex-total [] [] h k = refl
  lex-total [] (y ∷ ys) h k = cc
  lex-total (x ∷ xs) [] h k = cc
  lex-total (x ∷ xs) (y ∷ ys) h k = ground (arith, o.total x y, lex-total xs ys)

  -- Under a common head, or one that falls.
  lex_trans : (a b c : List A) → lex lt a b ≡ true → lex lt b c ≡ true → lex lt a c ≡ true
  lex_trans [] b [] h k =
      elim b as (λ b. lex lt [] b ≡ true → lex lt b [] ≡ true → false ≡ true) [
        | [] ↦ λ p q. p
        | y ∷ ys ↦ λ p q. q
      ]
        h k
  lex_trans [] b (z ∷ zs) h k = refl
  lex_trans (x ∷ xs) [] c h k = cc
  lex_trans (x ∷ xs) (y ∷ ys) [] h k = cc
  lex_trans (x ∷ xs) (y ∷ ys) (z ∷ zs) h k = ground (
    arith,
    o.trans x y z,
    o.trans z x y,
    o.trans y z x,
    o.total x y,
    o.total y z,
    o.irrefl x,
    o.irrefl y,
    o.irrefl z,
    lex_trans xs ys zs,
  )

  pub lex-StrictOrder : StrictOrder (lex lt)
  lex-StrictOrder = record { irrefl = lex_irrefl; trans = lex_trans; total = lex-total }

module _ {ℓ} {A : Type ℓ} where
  -- `==` of slices, from that of their elements.
  abbrev pub list_eq : (A → A → Bool) → List A → List A → Bool
  list_eq eq [] [] = true
  list_eq eq [] (y ∷ ys) = false
  list_eq eq (x ∷ xs) [] = false
  list_eq eq (x ∷ xs) (y ∷ ys) = eq x y && list_eq eq xs ys

  abbrev pub DecidesEq : (A → A → Bool) → Type ℓ
  DecidesEq eq = (a b : A) → (eq a b ≡ true) ↔ (a ≡ b)

  list_eq_sound :
      (eq : A → A → Bool) → DecidesEq eq → (a b : List A) → list_eq eq a b ≡ true → a ≡ b
  list_eq_sound eq d [] [] h = refl
  list_eq_sound eq d [] (y ∷ ys) h = cc
  list_eq_sound eq d (x ∷ xs) [] h = cc
  list_eq_sound eq d (x ∷ xs) (y ∷ ys) h = ground (arith, d x y, list_eq_sound eq d xs ys)

  list_eq_refl : (eq : A → A → Bool) → DecidesEq eq → (a : List A) → list_eq eq a a ≡ true
  list_eq_refl eq d [] = refl
  list_eq_refl eq d (x ∷ xs) = ground (arith, (d x x).1 refl, list_eq_refl eq d xs)

pub list_eq_iff {ℓ} : {A : Type ℓ} (eq : A → A → Bool) → DecidesEq eq → DecidesEq (list_eq eq)
list_eq_iff eq d a b = (list_eq_sound eq d a b, λ p. rw (← p) (list_eq_refl eq d a))
