-- ===== src/Store/Sources/Kept.antt =====
-- What the statements on the table of sources keep of its rows.
use pubky_swarm.Base.{
  ℕ, ◌≤◌, ◌≡◌, refl, inl, inr, Bool, true, false, ◌&&◌, some, List, [], ◌∷◌, ◌++◌, arith, ◌==◌,
  ==_iff, if◌then◌else◌, length, All, Bool-cases,
}
use pubky_swarm.Base.Bytes.{Bytes}
use pubky_swarm.Base.Pairs.{AllPairs, All-imp}
use pubky_swarm.Base.Text.{Text}
use pubky_swarm.Store.{SourceRow}
use pubky_swarm.Store.Table.{find, without}
use pubky_swarm.Store.Table.Distinct.{Distinct, All-without}
use pubky_swarm.Store.Sources.{set_enabled}

-- The built-in sources, by id, name and endpoint.
unfoldable pub built_ins : List SourceRow → List (ℕ × Text × Bytes)
built_ins [] = []
built_ins (row ∷ rows) =
    let rest = built_ins rows in
    if row.built_in then (row.source_id, row.name, row.endpoint) ∷ rest else rest

pub built_ins-append :
    (rows : List SourceRow) (row : SourceRow)
    → row.built_in ≡ false
    → built_ins (rows ++ row ∷ []) ≡ built_ins rows
unfolding built_ins
built_ins-append [] row h = rw (built_ins, h) refl
built_ins-append (r ∷ rows) row h = rw (built_ins-append rows row h) refl

pub built_ins-set_enabled :
    (id : ℕ) (enabled : Bool) (rows : List SourceRow)
    → built_ins (set_enabled id enabled rows) ≡ built_ins rows
unfolding built_ins set_enabled
built_ins-set_enabled id enabled [] = refl
built_ins-set_enabled id enabled (r ∷ rows) = elim (Bool-cases (r.source_id == id)) [
  | inl h ↦ rw (set_enabled, h, built_ins, built_ins-set_enabled id enabled rows) refl
  | inr h ↦ rw (set_enabled, h, built_ins, built_ins-set_enabled id enabled rows) refl
]

-- The rows of the id are not built in.
abbrev Removable : ℕ → SourceRow → Type 0
Removable id row = ((row.source_id == id) && row.built_in) ≡ false

pub built_ins-without :
    (id : ℕ) (rows : List SourceRow)
    → All (Removable id) rows
    → built_ins (without ◌==◌ SourceRow.source_id id rows) ≡ built_ins rows
unfolding built_ins without
built_ins-without id [] h = refl
built_ins-without id (r ∷ rows) (h, hs) = ground (arith, built_ins-without id rows hs)

others-Removable :
    (id : ℕ) (row : SourceRow) (rows : List SourceRow)
    → row.source_id == id ≡ true
    → All (λ (b : SourceRow). row.source_id == b.source_id ≡ false) rows
    → All (Removable id) rows
others-Removable id row [] e h = tt
others-Removable id row (r ∷ rows) e (h, hs) = (ground arith, others-Removable id row rows e hs)

-- The row that is found is the only one of the id.
pub find-Removable :
    (id : ℕ) (rows : List SourceRow) (row : SourceRow)
    → Distinct ◌==◌ SourceRow.source_id ==_iff rows
    → find ◌==◌ SourceRow.source_id id rows ≡ some row
    → row.built_in ≡ false
    → All (Removable id) rows
unfolding find
find-Removable id [] row d e b = tt
find-Removable id (r ∷ rows) row (d, ds) e b = elim (Bool-cases (r.source_id == id)) [
  | inl h ↦
      let found : some r ≡ some row = rw (find, h) at e in
      let same : r ≡ row = cc in (rw (h, same, b) refl, others-Removable id r rows h d)
  | inr h ↦ let rest = rw (find, h) at e in (rw h refl, find-Removable id rows row ds rest b)
]

pub AllPairs-without :
    (R : SourceRow → SourceRow → Type 0) (id : ℕ) (rows : List SourceRow)
    → AllPairs R rows
    → AllPairs R (without ◌==◌ SourceRow.source_id id rows)
unfolding without
AllPairs-without R id [] h = tt
AllPairs-without R id (r ∷ rows) (h, hs) = elim (Bool-cases (r.source_id == id)) [
  | inl p ↦ rw (without, p) (AllPairs-without R id rows hs)
  | inr p ↦
      rw (without, p)
        (All-without ◌==◌ SourceRow.source_id ==_iff (R r) id rows h, AllPairs-without R id rows hs)
]

pub length-without :
    (id : ℕ) (rows : List SourceRow)
    → length (without ◌==◌ SourceRow.source_id id rows) ≤ length rows
unfolding without
length-without id [] = omega arith
length-without id (r ∷ rows) = ground (arith, length-without id rows)

pub length-set_enabled :
    (id : ℕ) (e : Bool) (rows : List SourceRow) → length (set_enabled id e rows) ≡ length rows
unfolding set_enabled
length-set_enabled id e [] = refl
length-set_enabled id e (r ∷ rows) = ground (arith, length-set_enabled id e rows)

pub All-set_enabled :
    (P : SourceRow → Type 0)
    → ((row : SourceRow) (e : Bool) → P row → P (record row { enabled = e }))
    → (id : ℕ) (e : Bool) (rows : List SourceRow) → All P rows
    → All P (set_enabled id e rows)
unfolding set_enabled
All-set_enabled P k id e [] h = tt
All-set_enabled P k id e (r ∷ rows) (h, hs) = elim (Bool-cases (r.source_id == id)) [
  | inl p ↦ rw (set_enabled, p) (k r e h, All-set_enabled P k id e rows hs)
  | inr p ↦ rw (set_enabled, p) (h, All-set_enabled P k id e rows hs)
]

pub AllPairs-set_enabled :
    (R : SourceRow → SourceRow → Type 0)
    → ((a b : SourceRow) (e : Bool) → R a b → R (record a { enabled = e }) b)
    → ((a b : SourceRow) (e : Bool) → R a b → R a (record b { enabled = e }))
    → (id : ℕ) (e : Bool) (rows : List SourceRow) → AllPairs R rows
    → AllPairs R (set_enabled id e rows)
unfolding set_enabled
AllPairs-set_enabled R k l id e [] h = tt
AllPairs-set_enabled R k l id e (r ∷ rows) (h, hs) =
    let rest = All-set_enabled (R r) (l r) id e rows h in
    elim (Bool-cases (r.source_id == id)) [
      | inl p ↦
          rw (set_enabled, p)
            (
              All-imp _ _ (λ b. k r b e) (set_enabled id e rows) rest,
              AllPairs-set_enabled R k l id e rows hs,
            )
      | inr p ↦ rw (set_enabled, p) (rest, AllPairs-set_enabled R k l id e rows hs)
    ]
