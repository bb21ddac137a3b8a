-- ===== src/Tests/Feed.antt =====
-- The theorem on feeds, at a feed with one item that holds a magnet.
use pubky_swarm.Base.Bytes.{bytes_eq, bytes_lt, lower_byte, starts_with, strip_prefix}
use pubky_swarm.Base.Sort.{sort}
use pubky_swarm.Base.Text.{trim, trim_start, utf8_length}
use pubky_swarm.Base.Utf8.{is_control, is_whitespace}
use pubky_swarm.CatalogClient.Feed.{
  apply_element, apply_enclosure, apply_text, apply_torznab_attribute, catalog_error,
  enclosure_attribute, field_from_name, field_number, finish_item, first_size, is_inside,
  named_value, on_empty, on_end, on_start, on_text, parse_events, push_result, push_tag,
  resolve_reference, start_inside, step, torznab_attribute, torznab_pair,
}
use pubky_swarm.CatalogClient.Item.{
  append_text, credential_free_http_url, dedup, empty_item, find_magnet, find_xt, finish,
  finish_with, hints_of, info_hash_of, is_hex_digit, magnet_info_hash, magnet_of,
  normalize_info_hash, normalize_lowered, normalize_tag, normalize_tags, normalized_hash, or_else,
  provenance_of, truncate_chars,
}
use pubky_swarm.Gateway.{parse_digits, parse_some_digits, parse_u64}
use pubky_swarm.Base.{◌≡◌, ◌≤◌, refl, true, false, Option, none, some, List, [], ◌∷◌, All, length}
use pubky_swarm.Base.Bytes.{codes}
use pubky_swarm.Base.Result.{ok}
use pubky_swarm.Base.Text.{Text}
use pubky_swarm.CatalogClient.{rss}
use pubky_swarm.CatalogClient.Item.{Links, CatalogItem, rss_hint}
use pubky_swarm.CatalogClient.Item.Finished.{IsBounded}
use pubky_swarm.CatalogClient.Feed.{
  XmlEvent, start, text, end, parse_catalog, clamp_limit, max_results,
}
use pubky_swarm.CatalogClient.Feed.Limits.{parse_catalog-All}

abbrev links : Links
links = record {
  query = λ _. none;
  web_address = λ _. none;
  dn_pair = λ title. title;
  to_lowercase = λ tag. tag;
}

abbrev element : Text → Text → List XmlEvent → List XmlEvent
element name content rest = start name [] ∷ text (some content) ∷ end name ∷ rest

abbrev feed : List XmlEvent
feed =
    start (codes "item") []
    ∷ element (codes "title") (codes " Maps ")
        (element (codes "link") (codes "magnet:?xt=a") (end (codes "item") ∷ []))

abbrev found : CatalogItem
found = record {
  source_id = 1;
  source_name = codes "Feed";
  title = codes "Maps";
  description = [];
  magnet = codes "magnet:?xt=a";
  info_hash = none;
  size = none;
  tags = [];
  details_url = none;
  non_authoritative = true;
  client_validation_required = true;
  provenance = rss_hint;
}

feed_parsed : parse_catalog links 1 (codes "Feed") rss 10 feed ≡ ok (found ∷ [])
unfolding parse_catalog parse_events step on_start bytes_eq start_inside apply_element on_text
    on_end is_inside field_number field_from_name finish_item push_result finish or_else find_magnet
    bytes_lt lower_byte starts_with strip_prefix pubky_swarm.Base.Sort.insert sort trim trim_start
    utf8_length is_control is_whitespace apply_enclosure apply_text apply_torznab_attribute
    catalog_error clamp_limit enclosure_attribute first_size named_value on_empty push_tag
    resolve_reference torznab_attribute torznab_pair append_text credential_free_http_url dedup
    empty_item find_xt finish_with hints_of info_hash_of is_hex_digit magnet_info_hash magnet_of
    normalize_info_hash normalize_lowered normalize_tag normalize_tags normalized_hash provenance_of
    truncate_chars parse_digits parse_some_digits parse_u64
feed_parsed = refl

parse_catalog-All_example :
    (length (found ∷ []) ≤ clamp_limit 10)
    × (clamp_limit 10 ≤ max_results)
    × All (IsBounded rss) (found ∷ [])
parse_catalog-All_example =
    parse_catalog-All links 1 (codes "Feed") rss 10 feed (found ∷ []) feed_parsed
