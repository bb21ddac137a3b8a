-- ===== src/Store/Sources.antt =====
-- crates/swarm-store/src/sources.rs: the external catalogs that the user configured. `validate_name`
-- reads the name as its characters. `default_feed_name` is a parameter of `add_rss_feed`.
pub mod Presets
pub mod Kept
pub mod Invariant
use pubky_swarm.Base.{
  ℕ, ◌+◌, Bool, true, false, not, ◌&&◌, ◌||◌, Option, none, some, List, [], ◌∷◌, ◌++◌, ltb, leb,
  ◌==◌, if◌then◌else◌, length, any,
}
use pubky_swarm.Base.Bytes.{Bytes, bytes_eq}
use pubky_swarm.Base.Result.{Result, ok, err, ◌>>=◌, ◌>>◌, guard, ok_or, map_err}
use pubky_swarm.Base.Text.{Text, trim}
use pubky_swarm.Base.Utf8.{is_control}
use pubky_swarm.CatalogClient.{
  SourceKind, rss, max_sources, kind_text, kind_from_str, WebUrl, Web, validate_source_url,
}
use pubky_swarm.Store.{Libraries, SourceRow, Store, connection, clock, check_positive}
use pubky_swarm.Store.Failures.{
  Error, sqlite, check_failed, unique_failed, query_returned_no_rows, invalid_catalog_name,
  catalog_source_limit, built_in_catalog_source, catalog,
}
use pubky_swarm.Store.Table.{has, find, without}

pub record CatalogSource : Type 0 where
  pub id : ℕ
  pub name : Text
  pub kind : SourceKind
  pub endpoint : Bytes
  pub enabled : Bool
  pub built_in : Bool
  pub requires_api_key : Bool
  pub added_at : ℕ

unfoldable pub validate_name : Text → Result Error Text
validate_name value = do
  let value = trim value
  guard (not (not (leb 1 (length value) && leb (length value) 100) || any is_control value))
      invalid_catalog_name
  ok value

unfoldable pub parse_source : SourceRow → Result Error CatalogSource
parse_source row = do
  kind ← map_err (λ _. catalog) (kind_from_str row.kind)
  ok (record {
    id = row.source_id;
    name = row.name;
    kind = kind;
    endpoint = row.endpoint;
    enabled = row.enabled;
    built_in = row.built_in;
    requires_api_key = row.requires_api_key;
    added_at = row.added_at;
  })

unfoldable pub catalog_source : ℕ → Store → Result Error (Option CatalogSource)
catalog_source id store = do
  connection store
  elim (find ◌==◌ SourceRow.source_id id store.catalog_sources) [
    | none ↦ ok none
    | some row ↦ do value ← parse_source row; ok (some value)
  ]

-- The `collect` over the rows.
unfoldable pub parse_sources : List SourceRow → Result Error (List CatalogSource)
parse_sources [] = ok []
parse_sources (row ∷ rows) = do
  first ← parse_source row
  rest ← parse_sources rows
  ok (first ∷ rest)

unfoldable pub catalog_sources : Store → Result Error (List CatalogSource)
catalog_sources store = do connection store; parse_sources store.catalog_sources

-- The `INSERT` with the constraints of the table. The `source_id` is one more than any before.
unfoldable pub insert_source : SourceRow → Store → Result Error Store
insert_source row store = do
  guard (leb 1 (length row.name) && leb (length row.name) 100) (sqlite check_failed)
  guard (leb 1 (length row.endpoint) && leb (length row.endpoint) 2048) (sqlite check_failed)
  check_positive row.added_at
  guard (not (has bytes_eq SourceRow.endpoint row.endpoint store.catalog_sources))
      (sqlite unique_failed)
  ok (record store {
    catalog_sources = store.catalog_sources ++ row ∷ [];
    last_source = row.source_id;
  })

module _ (web : Web) (lib : Libraries) where
  unfoldable pub add_catalog_source :
      Option ℕ → Text → SourceKind → Bytes → Bool → Store → Result Error (CatalogSource × Store)
  add_catalog_source now name kind endpoint requires_api_key store = do
    name ← validate_name name
    parsed ← map_err (λ _. catalog) (validate_source_url web endpoint)
    connection store
    guard (not (leb max_sources (length store.catalog_sources))) catalog_source_limit
    added_at ← clock lib now
    let row : SourceRow = record {
      source_id = store.last_source + 1;
      name = name;
      kind = kind_text kind;
      endpoint = parsed.url.text;
      enabled = true;
      built_in = false;
      requires_api_key = requires_api_key;
      added_at = added_at;
    }
    store ← insert_source row store
    source ← catalog_source row.source_id store
    source ← ok_or source (sqlite query_returned_no_rows)
    ok (source, store)

  -- The name that the `match` takes.
  feed_name : (WebUrl → Text) → WebUrl → Option Text → Result Error Text
  feed_name default_feed_name endpoint none = validate_name (default_feed_name endpoint)
  feed_name default_feed_name endpoint (some name) =
      if length (trim name) == 0
      then validate_name (default_feed_name endpoint)
      else validate_name (trim name)

  unfoldable pub add_rss_feed :
      (WebUrl → Text)
      → Option ℕ
      → Bytes
      → Option Text
      → Store
      → Result Error (CatalogSource × Store)
  unfolding feed_name
  add_rss_feed default_feed_name now feed_url name store = do
    endpoint ← map_err (λ _. catalog) (validate_source_url web feed_url)
    resolved_name ← feed_name default_feed_name endpoint name
    add_catalog_source now resolved_name rss endpoint.url.text false store

-- `UPDATE … SET enabled`.
unfoldable pub set_enabled : ℕ → Bool → List SourceRow → List SourceRow
set_enabled id enabled [] = []
set_enabled id enabled (row ∷ rows) =
    let rest = set_enabled id enabled rows in
    if row.source_id == id then record row { enabled = enabled } ∷ rest else row ∷ rest

unfoldable pub set_catalog_source_enabled : ℕ → Bool → Store → Result Error (Bool × Store)
set_catalog_source_enabled id enabled store = do
  connection store
  ok (
    has ◌==◌ SourceRow.source_id id store.catalog_sources,
    record store { catalog_sources = set_enabled id enabled store.catalog_sources },
  )

-- The `match` on `built_in`.
unfoldable pub remove_found : ℕ → Option SourceRow → Store → Result Error (Bool × Store)
remove_found id none store = ok (false, store)
remove_found id (some row) store = if row.built_in then err built_in_catalog_source else (do
  connection store
  ok (
    true,
    record store { catalog_sources = without ◌==◌ SourceRow.source_id id store.catalog_sources },
  ))

unfoldable pub remove_catalog_source : ℕ → Store → Result Error (Bool × Store)
remove_catalog_source id store = do
  connection store
  remove_found id (find ◌==◌ SourceRow.source_id id store.catalog_sources) store
