-- ===== src/Store/Authority/Highest.antt =====
-- The recorded sequence of an authority is the greatest that was ever accepted.
use pubky_swarm.Base.{
  ℕ, ◌≡◌, refl, Bool, false, not, ◌&&◌, Option, none, some, List, [], ◌∷◌, arith, if◌then◌else◌,
  ltb, ◌==◌,
}
use pubky_swarm.Base.Bytes.{Bytes, bytes_eq, bytes_eq_iff}
use pubky_swarm.Base.Result.{Result, ok, err}
use pubky_swarm.Protocol.Crates.{Crates}
use pubky_swarm.Protocol.Ids.{PublisherId}
use pubky_swarm.Store.{Libraries, AuthoritySequence, Store, connection, bind}
use pubky_swarm.Store.Failures.{Error}
use pubky_swarm.Store.Follows.{publisher_text}
use pubky_swarm.Store.Table.{find, upsert}
use pubky_swarm.Store.Table.Laws.{find-upsert}
use pubky_swarm.Store.Authority.{
  highest_of, advances, highest_authority_sequence, record_authority_sequence,
}

abbrev pub Call : Type 0
Call = PublisherId × ℕ

kept : Store → Result Error (Bool × Store) → Store
kept store (ok (_, next)) = next
kept store (err _) = store

module _ (x : Crates) (lib : Libraries) where
  -- The store after a list of calls, of which some may be refused.
  unfoldable pub record_all : List Call → Store → Store
  unfolding kept
  record_all [] store = store
  record_all ((authority, sequence) ∷ calls) store =
      record_all calls (kept store (record_authority_sequence x lib authority sequence store))

unfoldable pub maximum : Option ℕ → ℕ → Option ℕ
maximum none n = some n
maximum (some m) n = some (if ltb m n then n else m)

-- The greatest sequence among those of the calls of an authority that are neither 0 nor too large
-- for the database.
unfoldable pub greatest : Crates → Libraries → PublisherId → Option ℕ → List Call → Option ℕ
unfolding maximum
greatest x lib authority before [] = before
greatest x lib authority before ((a, n) ∷ calls) =
    greatest x lib authority
      (if bytes_eq (publisher_text x a) (publisher_text x authority) && not (n == 0) && lib.fits n
        then maximum before n
        else before)
      calls

recorded : Bytes → Store → Option ℕ
recorded key store =
    highest_of (find bytes_eq AuthoritySequence.authority key store.authority_sequences)

-- One row is written.
recorded-upsert :
    (key : Bytes) (row : AuthoritySequence) (rows : List AuthoritySequence)
    → highest_of (
        find bytes_eq AuthoritySequence.authority key
          (upsert bytes_eq AuthoritySequence.authority row rows))
      ≡ (if bytes_eq row.authority key
          then some row.highest_sequence
          else highest_of (find bytes_eq AuthoritySequence.authority key rows))
unfolding highest_of
recorded-upsert key row rows =
    ground (arith, find-upsert bytes_eq AuthoritySequence.authority bytes_eq_iff key rows row)

module _ (x : Crates) (lib : Libraries) where
  recorded-kept :
      (key : Bytes) (a : PublisherId) (n : ℕ) (s : Store)
      → s.poisoned ≡ false
      → (recorded key (kept s (record_authority_sequence x lib a n s)) ≡ (
          if bytes_eq (publisher_text x a) key && not (n == 0) && lib.fits n
          then maximum (recorded key s) n
          else recorded key s))
        × ((kept s (record_authority_sequence x lib a n s)).poisoned ≡ false)
  unfolding record_authority_sequence kept recorded connection bind maximum advances highest_of
  recorded-kept key a n s p = ground (
    arith,
    p,
    recorded-upsert key (record { authority = publisher_text x a; highest_sequence = n })
        s.authority_sequences,
    bytes_eq_iff (publisher_text x a) key,
  )

  recorded-record_all :
      (key : PublisherId) (calls : List Call) (s : Store)
      → s.poisoned ≡ false
      → (recorded (publisher_text x key) (record_all x lib calls s)
          ≡ greatest x lib key (recorded (publisher_text x key) s) calls)
        × ((record_all x lib calls s).poisoned ≡ false)
  unfolding record_all greatest
  recorded-record_all key [] s p = (refl, p)
  recorded-record_all key ((a, n) ∷ calls) s p =
      let (now, open_still) = recorded-kept (publisher_text x key) a n s p in
      let (rest, end) =
        recorded-record_all key calls (kept s (record_authority_sequence x lib a n s)) open_still in
      (rw (rest, now) refl, end)

  -- After any calls on a store whose lock is not poisoned, the highest sequence of an authority is
  -- the greatest of the one that was recorded before and those of the calls for this authority
  -- that are neither 0 nor too large for the database: it never goes back, and the calls for other
  -- authorities do not change it.
  pub highest-record_all :
      (authority : PublisherId) (calls : List Call) (s : Store) (before : Option ℕ)
      → highest_authority_sequence x authority s ≡ ok before
      → highest_authority_sequence x authority (record_all x lib calls s)
        ≡ ok (greatest x lib authority before calls)
  unfolding highest_authority_sequence connection recorded
  highest-record_all authority calls s before h =
      let (unpoisoned, is_before) : (s.poisoned ≡ false)
          × (recorded (publisher_text x authority) s ≡ before) =
        ground arith in
      let (now, still) = recorded-record_all authority calls s unpoisoned in
      rw (still, now, is_before) refl
