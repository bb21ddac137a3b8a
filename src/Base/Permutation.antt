-- ===== src/Base/Permutation.antt =====
-- Sorting forgets the order in which the elements came.
use mathlib.Core.Path.{◌≡◌, refl}
use mathlib.Core.Logic.{∥∥₁_elim}
use mathlib.Core.List.Permᴰ.{Permᴰ, nil, cons, swap, trans}
use mathlib.Core.List.{is_set as list_is_set}
use mathlib.Core.Bool.{Bool}
use mathlib.Core.List.{List, [], ◌∷◌, Perm}
use native.Mathlib.Omega.{arith}
use pubky_swarm.Base.Order.{StrictOrder, asym}
use pubky_swarm.Base.Sort.{insert, sort}

module _ {ℓ} {A : Type ℓ} (lt : A → A → Bool) (o : StrictOrder lt) where
  insert-insert :
      (a b : A) (as' : List A) → insert lt a (insert lt b as') ≡ insert lt b (insert lt a as')
  unfolding insert
  insert-insert a b [] = ground (arith, o.total a b, asym lt o a b, asym lt o b a)
  insert-insert a b (c ∷ as') = ground (
    arith,
    o.total a b,
    o.total b a,
    asym lt o a b,
    asym lt o b a,
    asym lt o a c,
    asym lt o c a,
    asym lt o b c,
    asym lt o c b,
    o.trans a b c,
    o.trans b a c,
    o.trans c a b,
    o.trans c b a,
    o.trans a c b,
    o.trans b c a,
    insert-insert a b as',
  )

  sort-permᴰ : {as' bs : List A} → Permᴰ as' bs → sort lt as' ≡ sort lt bs
  unfolding sort
  sort-permᴰ nil = refl
  sort-permᴰ (cons e d) = cc (sort-permᴰ d, e)
  sort-permᴰ (swap {a = a} {b = b} {l = l} e f) = cc (insert-insert a b (sort lt l), e, f)
  sort-permᴰ (trans d e) = cc (sort-permᴰ d, sort-permᴰ e)

  -- Two lists with the same elements are sorted alike.
  pub sort-of_perm : IsSet A → (as' bs : List A) → Perm as' bs → sort lt as' ≡ sort lt bs
  sort-of_perm s as' bs p = ∥∥₁_elim p (list_is_set s (sort lt as') (sort lt bs)) sort-permᴰ
