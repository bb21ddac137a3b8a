-- ===== src/CatalogClient/Search.antt =====
-- crates/catalog-client/src/lib.rs: `torznab_search_url`. Texts are their characters.
use pubky_swarm.Base.{
  ℕ, Bool, false, not, ◌||◌, Option, none, some, List, [], ◌∷◌, ◌++◌, ◌≡◌, any, leb, length,
  append-nil, append_assoc, sym, ◌∙◌, ap,
}
use pubky_swarm.Base.Bytes.{codes}
use pubky_swarm.Base.Result.{Result, ok, ◌>>◌, guard, guard-eq-ok}
use pubky_swarm.Base.Text.{Text, trim, utf8_length}
use pubky_swarm.Base.Utf8.{is_control}
use pubky_swarm.CatalogClient.{Error, query_too_long, invalid_api_key}
use pubky_swarm.CatalogClient.Feed.{clamp_limit}

-- What the function calls of `url` and of the number formatter.
record Pairs (Address : Type 0) : Type 0 where
  pub append_pair : Address → Text → Text → Address
  pub decimal : ℕ → Text

unfoldable is_bad_key : Option Text → Bool
is_bad_key none = false
is_bad_key (some value) = not (leb (utf8_length value) 512) || any is_control value

-- The pairs of a search, and the pair of a key that is sent.
search_pairs : Text → Text → List (Text × Text)
search_pairs query limit =
    (codes "t", codes "search") ∷ (codes "q", trim query) ∷ (codes "limit", limit) ∷ []

key_pairs : Option Text → List (Text × Text)
key_pairs none = []
key_pairs (some []) = []
key_pairs (some (c ∷ key)) = (codes "apikey", c ∷ key) ∷ []

module _ {Address : Type 0} (pairs : Pairs Address) where
  unfoldable append_key : Option Text → Address → Address
  append_key none url = url
  append_key (some []) url = url
  append_key (some (c ∷ key)) url = pairs.append_pair url (codes "apikey") (c ∷ key)

  unfoldable append_search : Address → Text → ℕ → Address
  append_search endpoint query limit =
      let typed = pairs.append_pair endpoint (codes "t") (codes "search") in
      let asked = pairs.append_pair typed (codes "q") (trim query) in
      pairs.append_pair asked (codes "limit") (pairs.decimal (clamp_limit limit))

  unfoldable torznab_search_url : Address → Text → ℕ → Option Text → Result Error Address
  torznab_search_url endpoint query limit api_key = do
    guard (leb (length query) 256) query_too_long
    guard (not (is_bad_key api_key)) invalid_api_key
    ok (append_key api_key (append_search endpoint query limit))

  module _ (query_of : Address → List (Text × Text))
      (appended : (url : Address) (name value : Text)
        → query_of (pairs.append_pair url name value) ≡ query_of url ++ (name, value) ∷ []) where
    query-append_key :
        (api_key : Option Text) (url : Address)
        → query_of (append_key api_key url) ≡ query_of url ++ key_pairs api_key
    unfolding append_key key_pairs
    query-append_key none url = sym (append-nil (query_of url))
    query-append_key (some []) url = sym (append-nil (query_of url))
    query-append_key (some (c ∷ key)) url = appended url (codes "apikey") (c ∷ key)

    query-append_search :
        (endpoint : Address) (query : Text) (limit : ℕ)
        → query_of (append_search endpoint query limit)
          ≡ query_of endpoint ++ search_pairs query (pairs.decimal (clamp_limit limit))
    unfolding append_search search_pairs
    query-append_search endpoint query limit = simp (appended, append_assoc)

    -- When `url` reads an appended pair after the others, a search URL that is returned has the
    -- endpoint's pairs first, then those of the search, and last the key if there is one.
    query-torznab_search_url :
        (endpoint : Address) (query : Text) (limit : ℕ) (api_key : Option Text) {url : Address}
        → torznab_search_url endpoint query limit api_key ≡ ok url
        → query_of url
          ≡ (query_of endpoint ++ search_pairs query (pairs.decimal (clamp_limit limit)))
            ++ key_pairs api_key
    unfolding torznab_search_url
    query-torznab_search_url endpoint query limit api_key {url} h =
        let (_, rest) = guard-eq-ok (leb (length query) 256) query_too_long _ h in
        let (_, last) = guard-eq-ok (not (is_bad_key api_key)) invalid_api_key _ rest in
        let same : append_key api_key (append_search endpoint query limit) ≡ url = cc in
        ap query_of (sym same)
        ∙ query-append_key api_key (append_search endpoint query limit)
        ∙ ap (λ found. found ++ key_pairs api_key) (query-append_search endpoint query limit)
