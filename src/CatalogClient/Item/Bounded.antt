-- ===== src/CatalogClient/Item/Bounded.antt =====
-- The tags and the hash of a finished item.
use pubky_swarm.Base.{
  ℕ, ◌≤◌, ◌≡◌, refl, inl, inr, Bool, true, false, Option, none, some, List, [], ◌∷◌, map, any, all,
  arith, ◌==◌, length, All, Bool-cases, Option-cases,
}
use pubky_swarm.Base.Bytes.{codes, bytes_eq, lower_byte}
use pubky_swarm.Base.Sort.{insert, sort}
use pubky_swarm.Base.Text.{Text, trim, utf8_length}
use pubky_swarm.Base.Utf8.{is_control}
use pubky_swarm.Protocol.Crates.{is_lower_hex}
use pubky_swarm.CatalogClient.Item.{
  Links, ItemBuilder, or_else, is_hex_digit, normalize_info_hash, normalized_hash, find_xt,
  normalize_lowered, dedup, magnet_info_hash, normalize_tag, normalize_tags, info_hash_of,
}

module _ {A : Type 0} (P : A → Type 0) where
  All-insert : (lt : A → A → Bool) (a : A) (bs : List A) → P a → All P bs → All P (insert lt a bs)
  unfolding insert
  All-insert lt a [] p h = (p, tt)
  All-insert lt a (b ∷ bs) p (h, hs) = elim (Bool-cases (lt b a)) [
    | inl k ↦ rw (insert, k) (h, All-insert lt a bs p hs)
    | inr k ↦ rw (insert, k) (p, (h, hs))
  ]

  pub sort-All : (lt : A → A → Bool) (as' : List A) → All P as' → All P (sort lt as')
  unfolding sort
  sort-All lt [] h = tt
  sort-All lt (a ∷ as') (h, hs) = All-insert lt a (sort lt as') h (sort-All lt as' hs)

pub dedup-All : (P : Text → Type 0) (tags : List Text) → All P tags → All P (dedup tags)
unfolding dedup
dedup-All P [] h = tt
dedup-All P (a ∷ []) h = h
dedup-All P (a ∷ b ∷ tags) (h, hs) = elim (Bool-cases (bytes_eq a b)) [
  | inl k ↦ rw (dedup, k) (dedup-All P (b ∷ tags) hs)
  | inr k ↦ rw (dedup, k) (h, dedup-All P (b ∷ tags) hs)
]

-- From 1 to 64 characters without a control character.
abbrev pub IsTag : Text → Type 0
IsTag tag = (1 ≤ length tag) × (length tag ≤ 64) × (any is_control tag ≡ false)

normalize_lowered-IsTag : (v tag : Text) → normalize_lowered v ≡ some tag → IsTag tag
unfolding normalize_lowered
normalize_lowered-IsTag v tag e = ground arith

pub normalize_tags-All : (links : Links) (tags : List Text) → All IsTag (normalize_tags links tags)
unfolding normalize_tags normalize_tag
normalize_tags-All links [] = tt
normalize_tags-All links (tag ∷ tags) = elim (Option-cases (normalize_tag links tag)) [
  | inl e ↦ rw (normalize_tags, e) (normalize_tags-All links tags)
  | inr (t, e) ↦
      rw (normalize_tags, e) (normalize_lowered-IsTag _ t e, normalize_tags-All links tags)
]

-- 40 lowercase hexadecimal digits.
abbrev pub IsHash : Option Text → Type 0
IsHash none = Unit
IsHash (some hash) = (length hash ≡ 40) × (all is_lower_hex hash ≡ true)

lower_hex : (c : ℕ) → is_hex_digit c ≡ true → is_lower_hex (lower_byte c) ≡ true
unfolding is_hex_digit lower_byte
lower_hex c h = ground arith

lowered_all : (s : Text) → all is_hex_digit s ≡ true → all is_lower_hex (map lower_byte s) ≡ true
lowered_all [] h = refl
lowered_all (c ∷ s) h =
    let (k, ks) : (is_hex_digit c ≡ true) × (all is_hex_digit s ≡ true) = ground arith in
    rw (lower_hex c k, lowered_all s ks) refl

length-map : (s : Text) → length (map lower_byte s) ≡ length s
length-map [] = refl
length-map (c ∷ s) = rw (length-map s) refl

hex_length : (s : Text) → all is_hex_digit s ≡ true → utf8_length s ≡ length s
unfolding utf8_length is_hex_digit
hex_length [] h = refl
hex_length (c ∷ s) h = ground (arith, hex_length s)

normalize_info_hash-IsHash : (v : Text) → IsHash (normalize_info_hash v)
unfolding normalize_info_hash
normalize_info_hash-IsHash v = elim (Bool-cases (utf8_length (trim v) == 40)) [
  | inr h ↦ rw (normalize_info_hash, h) tt
  | inl h ↦ elim (Bool-cases (all is_hex_digit (trim v))) [
    | inr k ↦ rw (normalize_info_hash, h, k) tt
    | inl k ↦
        rw (normalize_info_hash, h, k)
          (ground (arith, length-map (trim v), hex_length (trim v) k), lowered_all (trim v) k)
  ]
]

normalized_hash-IsHash : (v : Option Text) → IsHash (normalized_hash v)
unfolding normalized_hash
normalized_hash-IsHash none = tt
normalized_hash-IsHash (some v) = normalize_info_hash-IsHash v

or_else-IsHash : (a b : Option Text) → IsHash a → IsHash b → IsHash (or_else a b)
unfolding or_else
or_else-IsHash none b h k = k
or_else-IsHash (some a) b h k = h

module _ (links : Links) where
  magnet_info_hash-IsHash : (v : Text) → IsHash (magnet_info_hash links v)
  unfolding magnet_info_hash
  magnet_info_hash-IsHash v = elim (Option-cases (links.query v)) [
    | inl e ↦ rw (magnet_info_hash, e) tt
    | inr ((scheme, pairs), e) ↦ elim (Bool-cases (bytes_eq scheme (codes "magnet"))) [
      | inl k ↦ rw (magnet_info_hash, e, k) (normalized_hash-IsHash (find_xt pairs))
      | inr k ↦ rw (magnet_info_hash, e, k) tt
    ]
  ]

  pub info_hash_of-IsHash : (item : ItemBuilder) → IsHash (info_hash_of links item)
  unfolding info_hash_of
  info_hash_of-IsHash item = or_else-IsHash _ _ (normalize_info_hash-IsHash item.info_hash) (
      or_else-IsHash _ _ (magnet_info_hash-IsHash item.magnet) (
        or_else-IsHash _ _ (magnet_info_hash-IsHash item.enclosure)
          (magnet_info_hash-IsHash item.link)))
