-- ===== src/CatalogClient/Feed.antt =====
-- crates/catalog-client/src/lib.rs: `parse_catalog` over the events that the XML reader gives before
-- the end of the document, with names as local names and decoded values.
pub mod Limits
use Prim.Native.String.{String}
use pubky_swarm.Base.{
  ℕ, ◌+◌, ◌-◌, Bool, true, false, not, ◌&&◌, ◌||◌, Option, none, some, List, [], ◌∷◌, ◌++◌, map,
  ltb, leb, ◌==◌, if◌then◌else◌, length, min,
}
use pubky_swarm.Base.Bytes.{codes, bytes_eq, lower_byte, starts_with}
use pubky_swarm.Base.Result.{Result, ok, err, ◌>>=◌, ◌>>◌, guard, ok_or}
use pubky_swarm.Base.Text.{Text, trim}
use pubky_swarm.Gateway.{parse_u64}
use pubky_swarm.CatalogClient.{SourceKind}
use pubky_swarm.CatalogClient.Item.{
  Links, CatalogItem, ItemBuilder, empty_item, truncate_chars, append_text, finish,
}

pub data XmlError : Type 0 where
  says : String → XmlError
  -- The text of the XML reader's error.
  reader_error : XmlError
  unsupported_entity : Text → XmlError
  -- An error document, with its code and its description.
  reported : Option Text → Option Text → XmlError

-- An attribute, or an error of the reader.
abbrev pub Attribute : Type 0
Attribute = Option (Text × Text)

pub data Reference : Type 0 where
  character : Text → Reference
  entity : Text → Reference

pub data XmlEvent : Type 0 where
  start : Text → List Attribute → XmlEvent
  empty : Text → List Attribute → XmlEvent
  -- Text and CDATA, decoded.
  text : Option Text → XmlEvent
  general_ref : Option Reference → XmlEvent
  end : Text → XmlEvent
  doc_type : XmlEvent
  failed : XmlEvent
  -- Comments, declarations and processing instructions.
  skipped : XmlEvent

pub data Field : Type 0 where
  no_field title description link guid category info_hash size : Field

unfoldable pub field_from_name : Text → Field
field_from_name name =
    if bytes_eq name (codes "title")
    then title
    else if bytes_eq name (codes "description")
    then description
    else if bytes_eq name (codes "link")
    then link
    else if bytes_eq name (codes "guid")
    then guid
    else if bytes_eq name (codes "category")
    then category
    else if bytes_eq name (codes "infohash")
    then info_hash
    else if bytes_eq name (codes "size")
    then size
    else no_field

-- The derived `==`.
unfoldable pub field_number : Field → ℕ
field_number no_field = 0
field_number title = 1
field_number description = 2
field_number link = 3
field_number guid = 4
field_number category = 5
field_number info_hash = 6
field_number size = 7

unfoldable pub resolve_reference : Option Reference → Result XmlError Text
resolve_reference none = err reader_error
resolve_reference (some (character c)) = ok c
resolve_reference (some (entity name)) =
    if bytes_eq name (codes "lt")
    then ok (codes "<")
    else if bytes_eq name (codes "gt")
    then ok (codes ">")
    else if bytes_eq name (codes "amp")
    then ok (codes "&")
    else if bytes_eq name (codes "apos")
    then ok (codes "'")
    else if bytes_eq name (codes "quot")
    then ok (codes "\"")
    else err (unsupported_entity name)

-- The loop of `catalog_error`, whose result is an error either way.
unfoldable pub catalog_error : Option Text → Option Text → List Attribute → XmlError
catalog_error code detail [] = reported code detail
catalog_error code detail (none ∷ attributes) = reader_error
catalog_error code detail (some (key, value) ∷ attributes) =
    catalog_error (if bytes_eq key (codes "code") then some (truncate_chars value 64) else code)
      (if bytes_eq key (codes "description") then some (truncate_chars value 512) else detail)
      attributes

unfoldable pub push_tag : Text → List Text → List Text
push_tag tag tags = if ltb (length tags) 64 then tags ++ tag ∷ [] else tags

unfoldable pub first_size : Option ℕ → Text → Option ℕ
first_size (some n) value = some n
first_size none value = parse_u64 value

unfoldable pub apply_text : ItemBuilder → Field → Text → ItemBuilder
apply_text item title value = record item { title = append_text item.title value 200 }
apply_text item description value = record item {
  description = append_text item.description value 4_000;
}
apply_text item link value = record item { link = append_text item.link value 8_192 }
apply_text item guid value = record item { guid = append_text item.guid value 8_192 }
apply_text item category value = record item {
  tags = push_tag (truncate_chars (trim value) 100) item.tags;
}
apply_text item info_hash value = record item { info_hash = append_text item.info_hash value 64 }
apply_text item size value = record item { size = first_size item.size (trim value) }
apply_text item no_field value = item

-- One attribute of an enclosure.
unfoldable pub enclosure_attribute : Text → Text → ItemBuilder → ItemBuilder
enclosure_attribute key value item =
    if bytes_eq key (codes "url")
      && (length item.enclosure == 0 || starts_with (codes "magnet:?") value)
    then record item { enclosure = truncate_chars value 8_192 }
    else if bytes_eq key (codes "length")
    then record item { enclosure_size = first_size item.enclosure_size value }
    else item

unfoldable pub apply_enclosure : List Attribute → ItemBuilder → Result XmlError ItemBuilder
apply_enclosure [] item = ok item
apply_enclosure (none ∷ attributes) item = err reader_error
apply_enclosure (some (key, value) ∷ attributes) item =
    apply_enclosure attributes (enclosure_attribute key value item)

-- The last `name` and the last `value` among the attributes.
unfoldable pub named_value :
    Option Text → Option Text → List Attribute → Result XmlError (Option Text × Option Text)
named_value name value [] = ok (name, value)
named_value name value (none ∷ attributes) = err reader_error
named_value name value (some (key, decoded) ∷ attributes) =
    named_value (if bytes_eq key (codes "name") then some decoded else name)
      (if bytes_eq key (codes "value") then some decoded else value) attributes

-- The `match` on the name.
unfoldable pub torznab_attribute : Text → Text → ItemBuilder → ItemBuilder
torznab_attribute name value item =
    let lowered = map lower_byte name in
    if bytes_eq lowered (codes "magneturl")
    then record item { magnet = truncate_chars value 8_192 }
    else if bytes_eq lowered (codes "infohash")
    then record item { info_hash = truncate_chars value 64 }
    else if bytes_eq lowered (codes "size")
    then record item { size = parse_u64 value }
    else if bytes_eq lowered (codes "tag") || bytes_eq lowered (codes "category")
    then record item { tags = push_tag (truncate_chars value 100) item.tags }
    else item

unfoldable pub torznab_pair : Option Text × Option Text → ItemBuilder → ItemBuilder
torznab_pair (some name, some value) item = torznab_attribute name value item
torznab_pair _ item = item

unfoldable pub apply_torznab_attribute : List Attribute → ItemBuilder → Result XmlError ItemBuilder
apply_torznab_attribute attributes item = do
  pair ← named_value none none attributes
  ok (torznab_pair pair item)

-- An element inside an item, which may be an enclosure or an attribute.
unfoldable pub apply_element : Text → List Attribute → ItemBuilder → Result XmlError ItemBuilder
apply_element name attributes item =
    if bytes_eq name (codes "enclosure")
    then apply_enclosure attributes item
    else if bytes_eq name (codes "attr")
    then apply_torznab_attribute attributes item
    else ok item

abbrev pub max_results : ℕ
max_results = 100

-- `limit.clamp(1, MAX_RESULTS)`.
unfoldable pub clamp_limit : ℕ → ℕ
clamp_limit limit = if limit == 0 then 1 else min limit max_results

pub record Parser : Type 0 where
  pub results : List CatalogItem
  pub item : Option ItemBuilder
  pub field : Field
  pub depth : ℕ
  -- Whether the loop was left.
  pub done : Bool

-- `item.is_some()`.
unfoldable pub is_inside : Option ItemBuilder → Bool
is_inside none = false
is_inside (some _) = true

module _ (links : Links) (source_id : ℕ) (source_name : Text) (source_kind : SourceKind)
    (limit : ℕ) where
  -- The arm of a start tag inside an item, after its depth was tested.
  unfoldable pub start_inside :
      Text → List Attribute → Parser → Option ItemBuilder → Result XmlError Parser
  start_inside name attributes p none = ok p
  start_inside name attributes p (some item) = do
    item ← apply_element name attributes item
    ok (record p { item = some item; field = field_from_name name })

  unfoldable pub on_start : Text → List Attribute → Parser → Result XmlError Parser
  on_start name attributes p = do
    guard (leb (p.depth + 1) 32) (says "catalog XML exceeds depth 32")
    let p : Parser = record p { depth = p.depth + 1 }
    if bytes_eq name (codes "error")
        then err (catalog_error none none attributes)
        else (if bytes_eq name (codes "item")
            then ok (record p { item = some empty_item; field = no_field })
            else start_inside name attributes p p.item)

  unfoldable pub on_empty :
      Text → List Attribute → Parser → Option ItemBuilder → Result XmlError Parser
  on_empty name attributes p none =
      if bytes_eq name (codes "error") then err (catalog_error none none attributes) else ok p
  on_empty name attributes p (some item) =
      if bytes_eq name (codes "error")
      then err (catalog_error none none attributes)
      else (do item ← apply_element name attributes item; ok (record p { item = some item }))

  unfoldable pub on_text :
      Result XmlError Text → Parser → Option ItemBuilder → Result XmlError Parser
  on_text value p none = ok p
  on_text value p (some item) = do
    value ← value
    ok (record p { item = some (apply_text item p.field value) })

  -- A finished item is kept, and the loop is left when there are enough.
  unfoldable pub push_result : Parser → Option CatalogItem → Parser
  push_result p none = record p { field = no_field; depth = p.depth - 1 }
  push_result p (some result) =
      let results = p.results ++ result ∷ [] in
      if leb (clamp_limit limit) (length results)
      then record p { results = results; done = true }
      else record p { results = results; field = no_field; depth = p.depth - 1 }

  unfoldable pub finish_item : Parser → Option ItemBuilder → Parser
  finish_item p none = push_result p none
  finish_item p (some candidate) =
      push_result p (finish links candidate source_id source_name source_kind)

  unfoldable pub on_end : Text → Parser → Parser
  on_end name p =
      if bytes_eq name (codes "item")
      then finish_item (record p { item = none }) p.item
      else if is_inside p.item && field_number (field_from_name name) == field_number p.field
      then record p { field = no_field; depth = p.depth - 1 }
      else record p { depth = p.depth - 1 }

  unfoldable pub step : XmlEvent → Parser → Result XmlError Parser
  step (start name attributes) p = on_start name attributes p
  step (empty name attributes) p = on_empty name attributes p p.item
  step (text value) p = on_text (ok_or value reader_error) p p.item
  step (general_ref reference) p = on_text (resolve_reference reference) p p.item
  step (end name) p = ok (on_end name p)
  step doc_type p = err (says "document type declarations are not allowed")
  step failed p = err reader_error
  step skipped p = ok p

  unfoldable pub parse_events : List XmlEvent → Parser → Result XmlError Parser
  parse_events [] p = ok p
  parse_events (event ∷ events) p = do
    next ← step event p
    elim next.done [ true ↦ ok next | false ↦ parse_events events next ]

  unfoldable pub parse_catalog : List XmlEvent → Result XmlError (List CatalogItem)
  parse_catalog events = do
    let begin : Parser = record {
      results = [];
      item = none;
      field = no_field;
      depth = 0;
      done = false;
    }
    p ← parse_events events begin
    ok p.results
