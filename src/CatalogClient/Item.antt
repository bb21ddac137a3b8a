-- ===== src/CatalogClient/Item.antt =====
-- crates/catalog-client/src/lib.rs: `ItemBuilder` and the item that it becomes. Strings are their
-- characters.
pub mod Bounded
pub mod Finished
use pubky_swarm.Base.{
  ℕ, ◌-◌, Bool, true, false, not, ◌&&◌, ◌||◌, Option, none, some, List, [], ◌∷◌, ◌++◌, map, any,
  all, ltb, leb, ◌==◌, if◌then◌else◌, length, take,
}
use pubky_swarm.Base.Bytes.{
  codes, bytes_eq, bytes_lt, is_digit, lower_byte, starts_with, strip_prefix,
}
use pubky_swarm.Base.Sort.{sort}
use pubky_swarm.Base.Text.{Text, trim, utf8_length}
use pubky_swarm.Base.Utf8.{is_control}
use pubky_swarm.CatalogClient.{SourceKind, rss, torznab}

-- What the parser calls of `url` and of Unicode's tables.
pub record Links : Type 0 where
  -- The scheme and the query pairs of a text that parses as a URL.
  pub query : Text → Option (Text × List (Text × Text))
  -- The scheme, the username, whether there is a password, and the text of a parsed URL.
  pub web_address : Text → Option (Text × Text × Bool × Text)
  -- `form_urlencoded` of the pair `dn` and a value.
  pub dn_pair : Text → Text
  pub to_lowercase : Text → Text

pub data CatalogProvenance : Type 0 where
  rss_hint torznab_hint : CatalogProvenance

unfoldable pub provenance_of : SourceKind → CatalogProvenance
provenance_of rss = rss_hint
provenance_of torznab = torznab_hint

pub record CatalogItem : Type 0 where
  pub source_id : ℕ
  pub source_name : Text
  pub title : Text
  pub description : Text
  pub magnet : Text
  pub info_hash : Option Text
  pub size : Option ℕ
  pub tags : List Text
  pub details_url : Option Text
  pub non_authoritative : Bool
  pub client_validation_required : Bool
  pub provenance : CatalogProvenance

pub record ItemBuilder : Type 0 where
  pub title : Text
  pub description : Text
  pub link : Text
  pub guid : Text
  pub enclosure : Text
  pub magnet : Text
  pub info_hash : Text
  pub size : Option ℕ
  pub enclosure_size : Option ℕ
  pub tags : List Text

unfoldable pub empty_item : ItemBuilder
empty_item = record {
  title = [];
  description = [];
  link = [];
  guid = [];
  enclosure = [];
  magnet = [];
  info_hash = [];
  size = none;
  enclosure_size = none;
  tags = [];
}

-- `a.or_else(|| b)`.
unfoldable pub or_else : {A : Type 0} → Option A → Option A → Option A
or_else (some a) b = some a
or_else none b = b

unfoldable pub truncate_chars : Text → ℕ → Text
truncate_chars value maximum = take maximum value

unfoldable pub append_text : Text → Text → ℕ → Text
append_text target value maximum =
    let target : Text =
      if not (length target == 0) && ltb (length target) maximum
      then target ++ codes " "
      else target in
    target ++ truncate_chars (trim value) (maximum - length target)

unfoldable pub is_hex_digit : ℕ → Bool
is_hex_digit c = is_digit c || (leb b'a' c && leb c b'f') || (leb b'A' c && leb c b'F')

unfoldable pub normalize_info_hash : Text → Option Text
normalize_info_hash value =
    let value = trim value in
    if utf8_length value == 40 && all is_hex_digit value then some (map lower_byte value) else none

-- `find_map` over the query pairs: the hash of the first `xt` that has one.
unfoldable pub find_xt : List (Text × Text) → Option Text
find_xt [] = none
find_xt ((name, value) ∷ pairs) =
    let rest = find_xt pairs in
    if bytes_eq (map lower_byte name) (codes "xt")
    then or_else (strip_prefix (codes "urn:btih:") value) rest
    else rest

-- `and_then(|value| normalize_info_hash(&value))`.
unfoldable pub normalized_hash : Option Text → Option Text
normalized_hash none = none
normalized_hash (some value) = normalize_info_hash value

unfoldable pub normalize_lowered : Text → Option Text
normalize_lowered value =
    if not (length value == 0) && leb (length value) 64 && not (any is_control value)
    then some value
    else none

-- `tags.dedup()`.
unfoldable pub dedup : List Text → List Text
dedup [] = []
dedup (tag ∷ []) = tag ∷ []
dedup (a ∷ b ∷ tags) = let rest = dedup (b ∷ tags) in if bytes_eq a b then rest else a ∷ rest

-- `.find(|value| value.starts_with("magnet:?"))`.
unfoldable pub find_magnet : List Text → Option Text
find_magnet [] = none
find_magnet (value ∷ values) =
    if starts_with (codes "magnet:?") value then some value else find_magnet values

module _ (links : Links) where
  unfoldable pub magnet_info_hash : Text → Option Text
  magnet_info_hash value = elim (links.query value) [
    | none ↦ none
    | some (scheme, pairs) ↦
        if bytes_eq scheme (codes "magnet") then normalized_hash (find_xt pairs) else none
  ]

  unfoldable pub credential_free_http_url : Text → Option Text
  credential_free_http_url value = elim (links.web_address (trim value)) [
    | none ↦ none
    | some (scheme, username, has_password, text) ↦
        if (bytes_eq scheme (codes "http") || bytes_eq scheme (codes "https"))
          && length username == 0
          && not has_password
        then some text
        else none
  ]

  unfoldable pub normalize_tag : Text → Option Text
  normalize_tag value = normalize_lowered (links.to_lowercase (trim value))

  -- The `filter_map` over the tags.
  unfoldable pub normalize_tags : List Text → List Text
  normalize_tags [] = []
  normalize_tags (tag ∷ tags) = elim (normalize_tag tag) [
    | none ↦ normalize_tags tags
    | some normalized ↦ normalized ∷ normalize_tags tags
  ]

  unfoldable pub hints_of : Text → Text
  hints_of title = if length (trim title) == 0 then [] else links.dn_pair (trim title)

  -- The magnet that is built from a hash.
  unfoldable pub magnet_of : Text → Option Text → Option Text
  magnet_of title none = none
  magnet_of title (some hash) =
      let start = codes "magnet:?xt=urn:btih:" ++ hash in
      let hints = hints_of title in
      some (if length hints == 0 then start else start ++ (codes "&" ++ hints))

  unfoldable pub info_hash_of : ItemBuilder → Option Text
  info_hash_of item = or_else (normalize_info_hash item.info_hash) (
      or_else (magnet_info_hash item.magnet)
        (or_else (magnet_info_hash item.enclosure) (magnet_info_hash item.link)))

  -- What follows the `?` on the magnet.
  unfoldable pub finish_with : ItemBuilder → ℕ → Text → SourceKind → Text → Option CatalogItem
  finish_with item source_id source_name source_kind magnet =
      if ltb 8_192 (utf8_length magnet) || length (trim item.title) == 0
      then none
      else some (record {
        source_id = source_id;
        source_name = truncate_chars (trim source_name) 100;
        title = truncate_chars (trim item.title) 200;
        description = truncate_chars (trim item.description) 4_000;
        magnet = magnet;
        info_hash = info_hash_of item;
        size = or_else item.size item.enclosure_size;
        tags = take 32 (dedup (sort bytes_lt (normalize_tags item.tags)));
        details_url =
            or_else (credential_free_http_url item.link) (credential_free_http_url item.guid);
        non_authoritative = true;
        client_validation_required = true;
        provenance = provenance_of source_kind;
      })

  unfoldable pub finish : ItemBuilder → ℕ → Text → SourceKind → Option CatalogItem
  finish item source_id source_name source_kind =
      elim (or_else (find_magnet (item.magnet ∷ item.enclosure ∷ item.link ∷ item.guid ∷ []))
        (magnet_of item.title (info_hash_of item))) [
          | none ↦ none
          | some magnet ↦ finish_with item source_id source_name source_kind magnet
        ]
