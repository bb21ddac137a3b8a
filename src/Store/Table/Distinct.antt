-- ===== src/Store/Table/Distinct.antt =====
-- The statements keep the keys of a table distinct, and what holds of its rows.
use pubky_swarm.Base.{
  ◌≡◌, refl, inl, inr, Bool, false, List, [], ◌∷◌, ◌++◌, arith, All, any, Bool-cases,
}
use pubky_swarm.Base.Lists.{All-append}
use pubky_swarm.Base.Order.{DecidesEq}
use pubky_swarm.Base.Pairs.{AllPairs}
use pubky_swarm.Store.Table.{has, without, replace, insert_new, upsert}
use pubky_swarm.Store.Table.Laws.{eq_sym}

module _ {A K : Type 0} (eq : K → K → Bool) (key : A → K) (d : DecidesEq eq) where
  -- The constraint of a unique key.
  abbrev pub Distinct : List A → Type 0
  Distinct rows = AllPairs (λ a b. eq (key a) (key b) ≡ false) rows

  pub All-without :
      (P : A → Type 0) (k : K) (rows : List A) → All P rows → All P (without eq key k rows)
  unfolding without
  All-without P k [] h = tt
  All-without P k (r ∷ rows) (h, hs) = elim (Bool-cases (eq (key r) k)) [
    | inl p ↦ rw (without, p) (All-without P k rows hs)
    | inr p ↦ rw (without, p) (h, All-without P k rows hs)
  ]

  pub without-All :
      (k : K) (rows : List A) → All (λ r. eq (key r) k ≡ false) (without eq key k rows)
  unfolding without
  without-All k [] = tt
  without-All k (r ∷ rows) = elim (Bool-cases (eq (key r) k)) [
    | inl p ↦ rw (without, p) (without-All k rows)
    | inr p ↦ rw (without, p) (p, without-All k rows)
  ]

  All-replace :
      (P : A → Type 0) (row : A) (rows : List A)
      → P row
      → All P rows
      → All P (replace eq key row rows)
  unfolding replace
  All-replace P row [] p h = tt
  All-replace P row (r ∷ rows) p (h, hs) = elim (Bool-cases (eq (key r) (key row))) [
    | inl q ↦ rw (replace, q) (p, All-replace P row rows p hs)
    | inr q ↦ rw (replace, q) (h, All-replace P row rows p hs)
  ]

  pub All-upsert :
      (P : A → Type 0) (row : A) (rows : List A)
      → P row
      → All P rows
      → All P (upsert eq key row rows)
  unfolding upsert
  All-upsert P row rows p h = elim (Bool-cases (has eq key (key row) rows)) [
    | inl q ↦ rw (upsert, q) (All-replace P row rows p h)
    | inr q ↦ rw (upsert, q) (All-append P rows (row ∷ []) h (p, tt))
  ]

  pub All-insert_new :
      (P : A → Type 0) (row : A) (rows : List A)
      → P row
      → All P rows
      → All P (insert_new eq key row rows)
  unfolding insert_new
  All-insert_new P row rows p h = elim (Bool-cases (has eq key (key row) rows)) [
    | inl q ↦ rw (insert_new, q) h
    | inr q ↦ rw (insert_new, q) (All-append P rows (row ∷ []) h (p, tt))
  ]

  pub Distinct-without : (k : K) (rows : List A) → Distinct rows → Distinct (without eq key k rows)
  unfolding without
  Distinct-without k [] h = tt
  Distinct-without k (r ∷ rows) (h, hs) = elim (Bool-cases (eq (key r) k)) [
    | inl p ↦ rw (without, p) (Distinct-without k rows hs)
    | inr p ↦ rw (without, p) (All-without _ k rows h, Distinct-without k rows hs)
  ]

  pub Distinct-append :
      (row : A) (rows : List A)
      → has eq key (key row) rows ≡ false
      → Distinct rows
      → Distinct (rows ++ row ∷ [])
  unfolding has
  Distinct-append row [] n h = (tt, tt)
  Distinct-append row (r ∷ rows) n (h, hs) =
      let (other, rest) : (eq (key r) (key row) ≡ false)
          × (any (λ a. eq (key a) (key row)) rows ≡ false) =
        ground arith in
      (All-append _ rows (row ∷ []) h (other, tt), Distinct-append row rows rest hs)

  pub Distinct-insert_new :
      (row : A) (rows : List A) → Distinct rows → Distinct (insert_new eq key row rows)
  unfolding insert_new
  Distinct-insert_new row rows h = elim (Bool-cases (has eq key (key row) rows)) [
    | inl q ↦ rw (insert_new, q) h
    | inr q ↦ rw (insert_new, q) (Distinct-append row rows q h)
  ]

  replace_absent :
      (row : A) (rows : List A)
      → All (λ b. eq (key row) (key b) ≡ false) rows
      → replace eq key row rows ≡ rows
  unfolding replace
  replace_absent row [] h = refl
  replace_absent row (r ∷ rows) (h, hs) =
      rw (eq_sym eq key d (key row) (key r) h, replace_absent row rows hs) refl

  -- A row that replaces the rows of its key stays apart from the others.
  apart_replace :
      (r row : A) (rows : List A)
      → eq (key r) (key row) ≡ false
      → All (λ a. eq (key r) (key a) ≡ false) rows
      → All (λ a. eq (key r) (key a) ≡ false) (replace eq key row rows)
  apart_replace r row rows p h = All-replace _ row rows p h

  Distinct-replace : (row : A) (rows : List A) → Distinct rows → Distinct (replace eq key row rows)
  unfolding replace
  Distinct-replace row [] h = tt
  Distinct-replace row (r ∷ rows) (h, hs) = elim (Bool-cases (eq (key r) (key row))) [
    | inl q ↦
        rw (replace, q)
          (let others : All (λ b. eq (key row) (key b) ≡ false) rows =
              rw ((d (key r) (key row)).0 q) at h in
            (rw (replace_absent row rows others) others, Distinct-replace row rows hs))
    | inr q ↦ rw (replace, q) (apart_replace r row rows q h, Distinct-replace row rows hs)
  ]

  pub Distinct-upsert :
      (row : A) (rows : List A) → Distinct rows → Distinct (upsert eq key row rows)
  unfolding upsert
  Distinct-upsert row rows h = elim (Bool-cases (has eq key (key row) rows)) [
    | inl q ↦ rw (upsert, q) (Distinct-replace row rows h)
    | inr q ↦ rw (upsert, q) (Distinct-append row rows q h)
  ]
