-- ===== src/Store/Table/Laws.antt =====
-- Looking a key up after each statement, and the uniqueness of keys.
use pubky_swarm.Base.{
  ◌≡◌, refl, inl, inr, Bool, true, false, ◌||◌, none, some, List, [], ◌∷◌, ◌++◌, arith,
  if◌then◌else◌, Bool-cases,
}
use pubky_swarm.Base.Order.{DecidesEq}
use pubky_swarm.Store.Table.{has, find, without, replace, insert_new, upsert}

module _ {A K : Type 0} (eq : K → K → Bool) (key : A → K) (d : DecidesEq eq) where
  eq_refl : (k : K) → eq k k ≡ true
  eq_refl k = (d k k).1 refl

  pub eq_sym : (a b : K) → eq a b ≡ false → eq b a ≡ false
  eq_sym a b h = elim (Bool-cases (eq b a)) [
    | inl p ↦ cc (rw ((d b a).0 p, eq_refl a) at h)
    | inr p ↦ p
  ]

  find-append :
      (k : K) (rows : List A) (row : A)
      → find eq key k (rows ++ row ∷ []) ≡ (
          if has eq key k rows
          then find eq key k rows
          else if eq (key row) k
          then some row
          else none)
  unfolding find has
  find-append k [] row = refl
  find-append k (r ∷ rows) row = ground (arith, find-append k rows row)

  find-none : (k : K) (rows : List A) → has eq key k rows ≡ false → find eq key k rows ≡ none
  unfolding find has
  find-none k [] h = refl
  find-none k (r ∷ rows) h = ground (arith, find-none k rows)

  find-replace :
      (k : K) (rows : List A) (row : A)
      → find eq key k (replace eq key row rows) ≡ (
          if eq (key row) k
          then (if has eq key k rows then some row else none)
          else find eq key k rows)
  unfolding find has replace
  find-replace k [] row = ground arith
  find-replace k (r ∷ rows) row =
      ground (arith, find-replace k rows row, d (key row) k, d (key r) k, d (key r) (key row))

  pub find-upsert :
      (k : K) (rows : List A) (row : A)
      → find eq key k (upsert eq key row rows)
        ≡ (if eq (key row) k then some row else find eq key k rows)
  unfolding upsert
  find-upsert k rows row =
      ground
        (arith, find-replace k rows row, find-append k rows row, find-none k rows, d (key row) k)

  pub find-insert_new :
      (k : K) (rows : List A) (row : A)
      → find eq key k (insert_new eq key row rows) ≡ (
          if has eq key k rows
          then find eq key k rows
          else if eq (key row) k
          then some row
          else none)
  unfolding insert_new
  find-insert_new k rows row =
      ground (arith, find-append k rows row, find-none k rows, d (key row) k)

  pub find-without :
      (k j : K) (rows : List A)
      → find eq key j (without eq key k rows) ≡ (if eq k j then none else find eq key j rows)
  unfolding find without
  find-without k j [] = ground arith
  find-without k j (r ∷ rows) =
      ground (arith, find-without k j rows, d k j, d (key r) k, d (key r) j)

  pub has-without :
      (k j : K) (rows : List A)
      → has eq key j (without eq key k rows) ≡ (if eq k j then false else has eq key j rows)
  unfolding has without
  has-without k j [] = ground arith
  has-without k j (r ∷ rows) = ground (arith, has-without k j rows, d k j, d (key r) k, d (key r) j)

  pub has-append :
      (k : K) (rows : List A) (row : A)
      → has eq key k (rows ++ row ∷ []) ≡ (has eq key k rows || eq (key row) k)
  unfolding has
  has-append k [] row = ground arith
  has-append k (r ∷ rows) row = ground (arith, has-append k rows row)

  pub has-insert_new :
      (k : K) (rows : List A) (row : A)
      → has eq key k (insert_new eq key row rows) ≡ (has eq key k rows || eq (key row) k)
  unfolding insert_new
  has-insert_new k rows row = ground (arith, has-append k rows row, d (key row) k)
