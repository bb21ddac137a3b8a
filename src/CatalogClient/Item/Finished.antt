-- ===== src/CatalogClient/Item/Finished.antt =====
-- A finished item is within the bounds of the catalog.
use pubky_swarm.Base.{
  ℕ, ◌≤◌, ◌≡◌, refl, inl, inr, true, ◌||◌, Option, none, some, List, [], ◌∷◌, arith, ltb, ◌==◌,
  length, All, Bool-cases, Option-cases,
}
use pubky_swarm.Base.Bytes.{codes, bytes_lt, starts_with, strip_prefix}
use pubky_swarm.Base.Lists.{length-take, All-take}
use pubky_swarm.Base.Sort.{sort}
use pubky_swarm.Base.Text.{Text, trim, utf8_length}
use pubky_swarm.CatalogClient.{SourceKind}
use pubky_swarm.CatalogClient.Item.{
  Links, provenance_of, CatalogItem, ItemBuilder, or_else, truncate_chars, dedup, find_magnet,
  normalize_tags, hints_of, magnet_of, info_hash_of, finish_with, finish,
}
use pubky_swarm.CatalogClient.Item.Bounded.{
  IsTag, IsHash, sort-All, dedup-All, normalize_tags-All, info_hash_of-IsHash,
}

abbrev pub IsMagnet : Text → Type 0
IsMagnet magnet = starts_with (codes "magnet:?") magnet ≡ true

abbrev IfMagnet : Option Text → Type 0
IfMagnet none = Unit
IfMagnet (some magnet) = IsMagnet magnet

find_magnet-IsMagnet : (values : List Text) → IfMagnet (find_magnet values)
unfolding find_magnet
find_magnet-IsMagnet [] = tt
find_magnet-IsMagnet (v ∷ values) = elim (Bool-cases (starts_with (codes "magnet:?") v)) [
  | inl h ↦ rw (find_magnet, h) h
  | inr h ↦ rw (find_magnet, h) (find_magnet-IsMagnet values)
]

or_else-IsMagnet : (a b : Option Text) → IfMagnet a → IfMagnet b → IfMagnet (or_else a b)
unfolding or_else
or_else-IsMagnet none b h k = k
or_else-IsMagnet (some a) b h k = h

-- The bounds of a result, and the marks that it never is authoritative.
pub record IsBounded (kind : SourceKind) (i : CatalogItem) : Type 0 where
  pub title : (1 ≤ length i.title) × (length i.title ≤ 200)
  pub source_name : length i.source_name ≤ 100
  pub description : length i.description ≤ 4_000
  pub magnet : (starts_with (codes "magnet:?") i.magnet ≡ true) × (utf8_length i.magnet ≤ 8_192)
  pub info_hash : IsHash i.info_hash
  pub tags : (length i.tags ≤ 32) × All IsTag i.tags
  pub marks :
      (i.non_authoritative ≡ true)
      × (i.client_validation_required ≡ true)
      × (i.provenance ≡ provenance_of kind)

abbrev pub IfBounded : SourceKind → Option CatalogItem → Type 0
IfBounded kind none = Unit
IfBounded kind (some i) = IsBounded kind i

take_max : (n : ℕ) (s : Text) → length (truncate_chars s n) ≤ n
unfolding truncate_chars
take_max n s = omega (arith, length-take n s)

take_some : (s : Text) → 1 ≤ length s → 1 ≤ length (truncate_chars s 200)
unfolding truncate_chars
take_some s h = omega (arith, length-take 200 s)

module _ (links : Links) where
  magnet_of-IsMagnet : (title : Text) (hash : Option Text) → IfMagnet (magnet_of links title hash)
  unfolding magnet_of starts_with strip_prefix
  magnet_of-IsMagnet title none = tt
  magnet_of-IsMagnet title (some hash) = elim (Bool-cases (length (hints_of links title) == 0)) [
    | inl h ↦ rw (magnet_of, h) refl
    | inr h ↦ rw (magnet_of, h) refl
  ]

  finish_with-IsBounded :
      (item : ItemBuilder) (id : ℕ) (name : Text) (kind : SourceKind) (magnet : Text)
      → IsMagnet magnet
      → IfBounded kind (finish_with links item id name kind magnet)
  unfolding finish_with
  finish_with-IsBounded item id name kind magnet m =
      elim (Bool-cases (ltb 8_192 (utf8_length magnet) || length (trim item.title) == 0)) [
        | inl h ↦ rw (finish_with, h) tt
        | inr h ↦
            let (short, titled) : (utf8_length magnet ≤ 8_192) × (1 ≤ length (trim item.title)) =
              ground (arith, h) in
            let tags = normalize_tags links item.tags in
            let sorted = sort bytes_lt tags in
            rw (finish_with, h)
              (record {
                title = (take_some (trim item.title) titled, take_max 200 (trim item.title));
                source_name = take_max 100 (trim name);
                description = take_max 4_000 (trim item.description);
                magnet = (m, short);
                info_hash = info_hash_of-IsHash links item;
                tags = (
                  omega (arith, length-take 32 (dedup sorted)),
                  All-take IsTag 32 (dedup sorted) (
                      dedup-All IsTag sorted
                        (sort-All IsTag bytes_lt tags (normalize_tags-All links item.tags))),
                );
                marks = (refl, refl, refl);
              })
      ]

  pub finish-IsBounded :
      (item : ItemBuilder) (id : ℕ) (name : Text) (kind : SourceKind)
      → IfBounded kind (finish links item id name kind)
  unfolding finish
  finish-IsBounded item id name kind =
      let chosen =
        or_else (find_magnet (item.magnet ∷ item.enclosure ∷ item.link ∷ item.guid ∷ []))
          (magnet_of links item.title (info_hash_of links item)) in
      let is_magnet =
        or_else-IsMagnet _ _
          (find_magnet-IsMagnet (item.magnet ∷ item.enclosure ∷ item.link ∷ item.guid ∷ []))
          (magnet_of-IsMagnet item.title (info_hash_of links item)) in
      elim (Option-cases chosen) [
        | inl e ↦ rw (finish, e) tt
        | inr (magnet, e) ↦
            rw (finish, e) (finish_with-IsBounded item id name kind magnet (rw e at is_magnet))
      ]
