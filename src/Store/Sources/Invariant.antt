-- ===== src/Store/Sources/Invariant.antt =====
-- No operation on the sources removes or renames a built-in one, and their bounds are kept.
use pubky_swarm.Base.{
  ℕ, ◌+◌, ◌≤◌, ◌≡◌, refl, inl, inr, Bool, true, false, not, ◌&&◌, Option, none, some, List, [], ◌∷◌,
  arith, leb, ◌==◌, ==_iff, length, All, Bool-cases,
}
use pubky_swarm.Base.Bytes.{Bytes, bytes_eq, bytes_eq_iff}
use pubky_swarm.Base.Lists.{All-append, length-append}
use pubky_swarm.Base.Pairs.{AllPairs, All-imp}
use pubky_swarm.Base.Result.{
  Result, ok, err, guard, ok_or, map_err, Ensures, Ensures->>=, Ensures-eq-ok,
}
use pubky_swarm.Base.Text.{Text}
use pubky_swarm.CatalogClient.{SourceKind, kind_text, max_sources, Web, validate_source_url}
use pubky_swarm.Store.{Libraries, SourceRow, Store, connection, clock, check_positive}
use pubky_swarm.Store.Failures.{
  Error, sqlite, check_failed, unique_failed, query_returned_no_rows, catalog, catalog_source_limit,
}
use pubky_swarm.Store.Table.{has, find, without}
use pubky_swarm.Store.Table.Distinct.{Distinct-append, All-without}
use pubky_swarm.Store.Sources.{
  validate_name, catalog_source, insert_source, add_catalog_source, set_catalog_source_enabled,
  remove_found, remove_catalog_source,
}
use pubky_swarm.Store.Sources.Kept.{
  built_ins, built_ins-append, built_ins-set_enabled, built_ins-without, find-Removable,
  AllPairs-without, length-without, length-set_enabled, All-set_enabled, AllPairs-set_enabled,
}

-- The bounds of the table: at most 32 sources, with distinct ids, none above the last one given,
-- and distinct endpoints.
pub record IsSound (s : Store) : Type 0 where
  pub bounded : length s.catalog_sources ≤ max_sources
  pub ids_distinct :
      AllPairs (λ (a b : SourceRow). (a.source_id == b.source_id) ≡ false) s.catalog_sources
  pub ids_given : All (λ (row : SourceRow). row.source_id ≤ s.last_source) s.catalog_sources
  pub endpoints_distinct :
      AllPairs (λ (a b : SourceRow). bytes_eq a.endpoint b.endpoint ≡ false) s.catalog_sources

fresh_id :
    (last : ℕ) (rows : List SourceRow)
    → All (λ (row : SourceRow). row.source_id ≤ last) rows
    → has ◌==◌ SourceRow.source_id (last + 1) rows ≡ false
unfolding has
fresh_id last [] h = refl
fresh_id last (r ∷ rows) (h, hs) = ground (arith, fresh_id last rows hs)

guard-false : (t : Bool) (e : Error) {u : Unit {0}} → guard (not t) e ≡ ok u → t ≡ false
guard-false true e h = cc
guard-false false e h = refl

has_room : (n : ℕ) (e : Error) {u : Unit {0}} → guard (not (leb max_sources n)) e ≡ ok u → n ≤ 31
has_room n e h = ground arith

abbrev Kept : Store → Store → Type 0
Kept s next = IsSound next × (built_ins next.catalog_sources ≡ built_ins s.catalog_sources)

insert_source-Kept :
    (row : SourceRow) (s : Store)
    → IsSound s
    → length s.catalog_sources ≤ 31
    → row.source_id ≡ s.last_source + 1
    → row.built_in ≡ false
    → Ensures (Kept s) (insert_source row s)
unfolding insert_source
insert_source-Kept row s h room id user =
    Ensures->>= (Kept s)
      (guard (leb 1 (length row.name) && leb (length row.name) 100) (sqlite check_failed)) _
      (λ _ _.
        Ensures->>= (Kept s)
          (guard (leb 1 (length row.endpoint) && leb (length row.endpoint) 2048)
            (sqlite check_failed))
          _
          (λ _ _. Ensures->>= (Kept s) (check_positive row.added_at) _ (λ _ _.
            Ensures->>= (Kept s)
              (guard (not (has bytes_eq SourceRow.endpoint row.endpoint s.catalog_sources))
                (sqlite unique_failed))
              _
              (λ _ new_endpoint. (
                record {
                  bounded = omega (arith, length-append s.catalog_sources (row ∷ []), room);
                  ids_distinct =
                      Distinct-append ◌==◌ SourceRow.source_id ==_iff row s.catalog_sources
                        (rw id (fresh_id s.last_source s.catalog_sources h.ids_given))
                        h.ids_distinct;
                  ids_given =
                      All-append _ s.catalog_sources (row ∷ [])
                        (All-imp _ _ (λ r l. omega (arith, l, id)) s.catalog_sources h.ids_given)
                        (omega (arith, id), tt);
                  endpoints_distinct =
                      Distinct-append bytes_eq SourceRow.endpoint bytes_eq_iff row s.catalog_sources
                        (guard-false _ _ new_endpoint) h.endpoints_distinct;
                },
                built_ins-append s.catalog_sources row user,
              )))))

-- Of an operation that also returns a value.
abbrev KeptWith {ℓ} : {A : Type ℓ} → Store → A × Store → Type 0
KeptWith s result = Kept s result.1

module _ (web : Web) (lib : Libraries) where
  add-Kept :
      (now : Option ℕ) (name : Text) (kind : SourceKind) (endpoint : Bytes) (key : Bool) (s : Store)
      → IsSound s
      → Ensures (KeptWith s) (add_catalog_source web lib now name kind endpoint key s)
  unfolding add_catalog_source
  add-Kept now name kind endpoint key s h =
      Ensures->>= (KeptWith s) (validate_name name) _ (λ name _.
        Ensures->>= (KeptWith s) (map_err (λ _. catalog) (validate_source_url web endpoint)) _
          (λ parsed _. Ensures->>= (KeptWith s) (connection s) _ (λ _ _.
            Ensures->>= (KeptWith s)
              (guard (not (leb max_sources (length s.catalog_sources))) catalog_source_limit) _
              (λ _ room. Ensures->>= (KeptWith s) (clock lib now) _ (λ added_at _.
                let row : SourceRow = record {
                  source_id = s.last_source + 1;
                  name = name;
                  kind = kind_text kind;
                  endpoint = parsed.url.text;
                  enabled = true;
                  built_in = false;
                  requires_api_key = key;
                  added_at = added_at;
                } in
                Ensures->>= (KeptWith s) (insert_source row s) _ (λ next inserted.
                  Ensures->>= (KeptWith s) (catalog_source row.source_id next) _ (λ source _.
                    Ensures->>= (KeptWith s) (ok_or source (sqlite query_returned_no_rows)) _
                      (λ _ _.
                        Ensures-eq-ok (Kept s) (insert_source row s) next
                          (insert_source-Kept row s h (has_room _ _ room) refl refl)
                          inserted))))))))

set_enabled-Kept :
    (id : ℕ) (enabled : Bool) (s : Store)
    → IsSound s
    → Ensures (KeptWith s) (set_catalog_source_enabled id enabled s)
unfolding set_catalog_source_enabled
set_enabled-Kept id enabled s h = Ensures->>= (KeptWith s) (connection s) _ (λ _ _. (
  record {
    bounded = rw (length-set_enabled id enabled s.catalog_sources) h.bounded;
    ids_distinct =
        AllPairs-set_enabled _ (λ a b e k. k) (λ a b e k. k) id enabled s.catalog_sources
          h.ids_distinct;
    ids_given = All-set_enabled _ (λ row e k. k) id enabled s.catalog_sources h.ids_given;
    endpoints_distinct =
        AllPairs-set_enabled _ (λ a b e k. k) (λ a b e k. k) id enabled s.catalog_sources
          h.endpoints_distinct;
  },
  built_ins-set_enabled id enabled s.catalog_sources,
))

removed-Kept :
    (id : ℕ) (s : Store)
    → IsSound s
    → (row : SourceRow) → find ◌==◌ SourceRow.source_id id s.catalog_sources ≡ some row
    → row.built_in ≡ false
    → Kept s (record s { catalog_sources = without ◌==◌ SourceRow.source_id id s.catalog_sources })
removed-Kept id s h row found user = (
  record {
    bounded = omega (arith, length-without id s.catalog_sources, h.bounded);
    ids_distinct = AllPairs-without _ id s.catalog_sources h.ids_distinct;
    ids_given = All-without ◌==◌ SourceRow.source_id ==_iff _ id s.catalog_sources h.ids_given;
    endpoints_distinct = AllPairs-without _ id s.catalog_sources h.endpoints_distinct;
  },
  built_ins-without id s.catalog_sources
      (find-Removable id s.catalog_sources row h.ids_distinct found user),
)

remove_found-Kept :
    (id : ℕ) (s : Store) (found : Option SourceRow)
    → IsSound s
    → find ◌==◌ SourceRow.source_id id s.catalog_sources ≡ found
    → Ensures (KeptWith s) (remove_found id found s)
unfolding remove_found
remove_found-Kept id s none h e = (h, refl)
remove_found-Kept id s (some row) h e = elim (Bool-cases row.built_in) [
  | inl b ↦ rw (remove_found, b) tt
  | inr b ↦
      rw (remove_found, b)
        (Ensures->>= (KeptWith s) (connection s) _ (λ _ _. removed-Kept id s h row e b))
]

remove-Kept : (id : ℕ) (s : Store) → IsSound s → Ensures (KeptWith s) (remove_catalog_source id s)
unfolding remove_catalog_source
remove-Kept id s h =
    Ensures->>= (KeptWith s) (connection s) _
      (λ _ _. remove_found-Kept id s (find ◌==◌ SourceRow.source_id id s.catalog_sources) h refl)

-- A call on the sources.
pub data Operation : Type 0 where
  adds : Option ℕ → Text → SourceKind → Bytes → Bool → Operation
  enables : ℕ → Bool → Operation
  removes : ℕ → Operation

left {ℓ} : {A : Type ℓ} → Store → Result Error (A × Store) → Store
left store (ok (_, next)) = next
left store (err _) = store

left-Kept {ℓ} :
    {A : Type ℓ} (s : Store) (r : Result Error (A × Store))
    → IsSound s
    → Ensures (KeptWith s) r
    → Kept s (left s r)
unfolding left
left-Kept s (ok (_, next)) h k = k
left-Kept s (err _) h k = (h, refl)

module _ (web : Web) (lib : Libraries) where
  step : Operation → Store → Store
  unfolding left
  step (adds now name kind endpoint key) store =
      left store (add_catalog_source web lib now name kind endpoint key store)
  step (enables id enabled) store = left store (set_catalog_source_enabled id enabled store)
  step (removes id) store = left store (remove_catalog_source id store)

  -- The store after the calls, of which some may fail.
  unfoldable pub run : List Operation → Store → Store
  unfolding step
  run [] store = store
  run (operation ∷ operations) store = run operations (step operation store)

  step-Kept : (operation : Operation) (s : Store) → IsSound s → Kept s (step operation s)
  unfolding step
  step-Kept (adds now name kind endpoint key) s h =
      left-Kept s _ h (add-Kept web lib now name kind endpoint key s h)
  step-Kept (enables id enabled) s h = left-Kept s _ h (set_enabled-Kept id enabled s h)
  step-Kept (removes id) s h = left-Kept s _ h (remove-Kept id s h)

  -- Whatever sources are added, enabled, disabled and removed, in any order and number, with or
  -- without success: a sound table stays sound, so there are never more than 32 sources, no two
  -- with one id or one endpoint; and the built-in sources stay the same, in their order, with
  -- their ids, names and endpoints.
  pub run-IsSound :
      (operations : List Operation) (s : Store)
      → IsSound s
      → IsSound (run operations s)
        × (built_ins (run operations s).catalog_sources ≡ built_ins s.catalog_sources)
  unfolding run
  run-IsSound [] s h = (h, refl)
  run-IsSound (operation ∷ operations) s h =
      let (sound, same) = step-Kept operation s h in
      let (end, rest) = run-IsSound operations (step operation s) sound in (end, cc (rest, same))
