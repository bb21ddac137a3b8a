-- ===== src/Store/Table.antt =====
-- What the SQL of crates/swarm-store does to a table with a key, as functions on lists of rows.
pub mod Laws
pub mod Distinct
use pubky_swarm.Base.{
  Bool, true, false, not, Option, none, some, List, [], ◌∷◌, ◌++◌, if◌then◌else◌, any,
}

module _ {A K : Type 0} (eq : K → K → Bool) (key : A → K) where
  -- Whether a row has the key.
  unfoldable pub has : K → List A → Bool
  has k = any (λ row. eq (key row) k)

  -- `SELECT … WHERE key = k` of a unique key.
  unfoldable pub find : K → List A → Option A
  find k [] = none
  find k (row ∷ rows) = if eq (key row) k then some row else find k rows

  -- `DELETE … WHERE key = k`.
  unfoldable pub without : K → List A → List A
  without k [] = []
  without k (row ∷ rows) = let rest = without k rows in if eq (key row) k then rest else row ∷ rest

  unfoldable pub replace : A → List A → List A
  replace row [] = []
  replace row (r ∷ rows) =
      let rest = replace row rows in if eq (key r) (key row) then row ∷ rest else r ∷ rest

  -- `INSERT … ON CONFLICT(key) DO NOTHING`.
  unfoldable pub insert_new : A → List A → List A
  insert_new row rows = if has (key row) rows then rows else rows ++ row ∷ []

  -- `INSERT … ON CONFLICT(key) DO UPDATE SET` of all the other columns.
  unfoldable pub upsert : A → List A → List A
  upsert row rows = if has (key row) rows then replace row rows else rows ++ row ∷ []

-- `SELECT … WHERE` a test.
unfoldable pub keep : {A : Type 0} → (A → Bool) → List A → List A
keep test [] = []
keep test (row ∷ rows) = let rest = keep test rows in if test row then row ∷ rest else rest
