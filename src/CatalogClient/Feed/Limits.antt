-- ===== src/CatalogClient/Feed/Limits.antt =====
-- A parsed feed has no more results than asked for, each within its bounds.
use pubky_swarm.Base.{
  ℕ, ◌+◌, ◌≤◌, ◌<◌, ◌≡◌, refl, inl, inr, ◌⊎◌, Bool, true, false, ◌&&◌, Option, none, some, List, [],
  ◌∷◌, ◌++◌, arith, leb, ◌==◌, length, All, Bool-cases,
}
use pubky_swarm.Base.Bytes.{codes, bytes_eq}
use pubky_swarm.Base.Lists.{All-append, length-append}
use pubky_swarm.Base.Result.{Result, ok, guard, Ensures, Ensures->>=, Ensures-eq-ok}
use pubky_swarm.Base.Text.{Text}
use pubky_swarm.CatalogClient.{SourceKind}
use pubky_swarm.CatalogClient.Item.{Links, CatalogItem, ItemBuilder, finish}
use pubky_swarm.CatalogClient.Item.Finished.{IsBounded, IfBounded, finish-IsBounded}
use pubky_swarm.CatalogClient.Feed.{
  XmlError, says, Attribute, XmlEvent, start, empty, text, general_ref, end, doc_type, failed,
  skipped, field_from_name, field_number, no_field, apply_element, clamp_limit, max_results, Parser,
  is_inside, start_inside, on_start, on_empty, on_text, push_result, finish_item, on_end, step,
  parse_events, parse_catalog,
}

module _ (links : Links) (source_id : ℕ) (source_name : Text) (kind : SourceKind) (limit : ℕ) where
  -- The parser may go on: there is room for a result.
  abbrev Open : Parser → Type 0
  Open p = All (IsBounded kind) p.results × (length p.results < clamp_limit limit)

  -- After an event, by the results and whether the loop was left.
  abbrev GoodOf : List CatalogItem → Bool → Type 0
  GoodOf results done =
      All (IsBounded kind) results
      × (length results ≤ clamp_limit limit)
      × ((done ≡ true) ⊎ (length results < clamp_limit limit))

  abbrev Good : Parser → Type 0
  Good p = GoodOf p.results p.done

  Open-Good : (p : Parser) → Open p → GoodOf p.results p.done
  Open-Good p (h, room) = (h, omega (arith, room), inr room)

  start_inside-Good :
      (name : Text) (attributes : List Attribute) (p : Parser) (i : Option ItemBuilder)
      → Open p
      → Ensures Good (start_inside links source_id source_name kind limit name attributes p i)
  unfolding start_inside
  start_inside-Good name attributes p none h = Open-Good p h
  start_inside-Good name attributes p (some item) h =
      Ensures->>= Good (apply_element name attributes item) _ (λ item _. Open-Good p h)

  on_start-Good :
      (name : Text) (attributes : List Attribute) (p : Parser)
      → Open p
      → Ensures Good (on_start links source_id source_name kind limit name attributes p)
  unfolding on_start
  on_start-Good name attributes p h =
      Ensures->>= Good (guard (leb (p.depth + 1) 32) (says "catalog XML exceeds depth 32")) _
        (λ _ _. elim (Bool-cases (bytes_eq name (codes "error"))) [
          | inl k ↦ rw k tt
          | inr k ↦ elim (Bool-cases (bytes_eq name (codes "item"))) [
            | inl l ↦ rw (k, l) (Open-Good p h)
            | inr l ↦
                rw (k, l)
                  (start_inside-Good name attributes (record p { depth = p.depth + 1 }) p.item h)
          ]
        ])

  on_empty-Good :
      (name : Text) (attributes : List Attribute) (p : Parser) (i : Option ItemBuilder)
      → Open p
      → Ensures Good (on_empty links source_id source_name kind limit name attributes p i)
  unfolding on_empty
  on_empty-Good name attributes p none h = elim (Bool-cases (bytes_eq name (codes "error"))) [
    | inl k ↦ rw (on_empty, k) tt
    | inr k ↦ rw (on_empty, k) (Open-Good p h)
  ]
  on_empty-Good name attributes p (some item) h =
      elim (Bool-cases (bytes_eq name (codes "error"))) [
        | inl k ↦ rw (on_empty, k) tt
        | inr k ↦
            rw (on_empty, k)
              (Ensures->>= Good (apply_element name attributes item) _ (λ _ _. Open-Good p h))
      ]

  on_text-Good :
      (value : Result XmlError Text) (p : Parser) (i : Option ItemBuilder)
      → Open p
      → Ensures Good (on_text links source_id source_name kind limit value p i)
  unfolding on_text
  on_text-Good value p none h = Open-Good p h
  on_text-Good value p (some item) h = Ensures->>= Good value _ (λ _ _. Open-Good p h)

  push_result-Good :
      (p : Parser) (i : Option CatalogItem)
      → Open p
      → IfBounded kind i
      → Good (push_result links source_id source_name kind limit p i)
  unfolding push_result
  push_result-Good p none h b = Open-Good p h
  push_result-Good p (some i) (h, room) b =
      let all = All-append (IsBounded kind) p.results (i ∷ []) h (b, tt) in
      let one = length-append p.results (i ∷ []) in
      elim (Bool-cases (leb (clamp_limit limit) (length (p.results ++ i ∷ [])))) [
        | inl k ↦ rw (push_result, k) (all, omega (arith, one, room), inl refl)
        | inr k ↦ rw (push_result, k) (all, omega (arith, one, room), inr (ground (arith, k)))
      ]

  finish_item-Good :
      (p : Parser) (i : Option ItemBuilder)
      → Open p
      → Good (finish_item links source_id source_name kind limit p i)
  unfolding finish_item
  finish_item-Good p none h = push_result-Good p none h tt
  finish_item-Good p (some item) h =
      push_result-Good p (finish links item source_id source_name kind) h
        (finish-IsBounded links item source_id source_name kind)

  on_end-Good :
      (name : Text) (p : Parser)
      → Open p
      → Good (on_end links source_id source_name kind limit name p)
  unfolding on_end
  on_end-Good name p h = elim (Bool-cases (bytes_eq name (codes "item"))) [
    | inl k ↦ rw (on_end, k) (finish_item-Good (record p { item = none }) p.item h)
    | inr k ↦
        elim (Bool-cases
          (is_inside p.item && field_number (field_from_name name) == field_number p.field)) [
            | inl l ↦ rw (on_end, k, l) (Open-Good p h)
            | inr l ↦ rw (on_end, k, l) (Open-Good p h)
          ]
  ]

  step-Good :
      (event : XmlEvent) (p : Parser)
      → Open p
      → Ensures Good (step links source_id source_name kind limit event p)
  unfolding step
  step-Good (start name attributes) p h = on_start-Good name attributes p h
  step-Good (empty name attributes) p h = on_empty-Good name attributes p p.item h
  step-Good (text value) p h = on_text-Good _ p p.item h
  step-Good (general_ref reference) p h = on_text-Good _ p p.item h
  step-Good (end name) p h = on_end-Good name p h
  step-Good doc_type p h = tt
  step-Good failed p h = tt
  step-Good skipped p h = Open-Good p h

  still_open :
      (results : List CatalogItem) (done : Bool)
      → done ≡ false
      → (done ≡ true) ⊎ (length results < clamp_limit limit)
      → length results < clamp_limit limit
  still_open results done d (inl t) = cc
  still_open results done d (inr room) = room

  abbrev IsLimited : Parser → Type 0
  IsLimited p = All (IsBounded kind) p.results × (length p.results ≤ clamp_limit limit)

  parse_events-IsLimited :
      (events : List XmlEvent) (p : Parser)
      → Open p
      → Ensures IsLimited (parse_events links source_id source_name kind limit events p)
  unfolding parse_events
  parse_events-IsLimited [] p (h, room) = (h, omega (arith, room))
  parse_events-IsLimited (event ∷ events) p h =
      Ensures->>= IsLimited (step links source_id source_name kind limit event p) _ (λ next stepped.
        let (all, few, more) =
          Ensures-eq-ok Good (step links source_id source_name kind limit event p) next
            (step-Good event p h) stepped in
        elim (Bool-cases next.done) [
          | inl d ↦ rw d (all, few)
          | inr d ↦
              rw d
                (parse_events-IsLimited events next (all, still_open next.results next.done d more))
        ])

  clamp_limit-max : clamp_limit limit ≤ max_results
  unfolding clamp_limit
  clamp_limit-max = ground arith

  room_at_first : 0 < clamp_limit limit
  unfolding clamp_limit
  room_at_first = ground arith

  -- A feed that is parsed gives at most 100 results, and at most as many as were asked for, one
  -- when none were. Each has a title of 1 to 200 characters, a magnet URI of at most 8192 bytes, a
  -- hash of 40 lowercase digits if any, at most 32 tags of 1 to 64 characters without control
  -- characters, bounded texts, and is marked as not authoritative, with the provenance of its
  -- source.
  pub parse_catalog-All :
      (events : List XmlEvent) (items : List CatalogItem)
      → parse_catalog links source_id source_name kind limit events ≡ ok items
      → (length items ≤ clamp_limit limit)
        × (clamp_limit limit ≤ max_results)
        × All (IsBounded kind) items
  unfolding parse_catalog
  parse_catalog-All events items e =
      let begin : Parser = record {
        results = [];
        item = none;
        field = no_field;
        depth = 0;
        done = false;
      } in
      let P : List CatalogItem → Type 0 =
        λ items. All (IsBounded kind) items × (length items ≤ clamp_limit limit) in
      let (all, few) =
        Ensures-eq-ok P (parse_catalog links source_id source_name kind limit events) items
          (Ensures->>= P (parse_events links source_id source_name kind limit events begin) _
            (λ p parsed.
              Ensures-eq-ok IsLimited _ p (parse_events-IsLimited events begin (tt, room_at_first))
                parsed))
          e in
      (few, clamp_limit-max, all)
