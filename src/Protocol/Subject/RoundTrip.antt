-- ===== src/Protocol/Subject/RoundTrip.antt =====
-- Torrent references are read from exactly the text that they are written as.
use pubky_swarm.Base.{
  ℕ, ◌≡◌, ◌↔◌, refl, inl, inr, true, false, not, some, [], ◌∷◌, ◌++◌, ◌==◌, arith, all, take,
  Option-cases,
}
use pubky_swarm.Base.Bytes.{
  Bytes, codes, bytes_eq_iff, strip_prefix, strip_prefix-append, strip_prefix-eq-some,
}
use pubky_swarm.Base.Result.{Result, ok, ok_or, ◌>>=◌, >>=-eq-ok}
use pubky_swarm.Protocol.Crates.{Crates, HexLaws, is_lower_hex}
use pubky_swarm.Protocol.Error.{Error}
use pubky_swarm.Protocol.Ids.{IsArray, InfoHashV1, info_hash_to_hex, to_array}
use pubky_swarm.Protocol.Ids.RoundTrip.{info_hash-round, info_hash-canonical}
use pubky_swarm.Protocol.Import.{Btmh, TorrentRef, btih, btmh, verified_hybrid}
use pubky_swarm.Protocol.Subject.{
  has_other_digits, split_once_str, btmh_to_text, btmh_from_str, parse_normalized_btih,
  torrent_ref_to_text, torrent_ref_from_str, hybrid_from_str,
}

has_other_digits-all : (s : Bytes) → has_other_digits s ≡ not (all is_lower_hex s)
unfolding has_other_digits
has_other_digits-all [] = refl
has_other_digits-all (c ∷ s) = ground (arith, has_other_digits-all s)

-- Lowercase digits hold no separator that begins with another byte.
split_once_str-append :
    (c : ℕ) (sep a b : Bytes)
    → is_lower_hex c ≡ false
    → all is_lower_hex a ≡ true
    → split_once_str (c ∷ sep) (a ++ ((c ∷ sep) ++ b)) ≡ some (a, b)
unfolding split_once_str strip_prefix
split_once_str-append c sep [] b h l = rw (split_once_str, strip_prefix-append (c ∷ sep) b)
split_once_str-append c sep (d ∷ a) b h l =
    let other : c == d ≡ false = ground arith in
    let tail : all is_lower_hex a ≡ true = ground arith in
    rw (split_once_str, strip_prefix, other, split_once_str-append c sep a b h tail)

split_once_str-eq-some :
    (sep s a b : Bytes) → split_once_str sep s ≡ some (a, b) → s ≡ a ++ (sep ++ b)
unfolding split_once_str
split_once_str-eq-some sep [] a b e = elim (Option-cases (strip_prefix sep [])) [
  | inl h ↦ cc (rw (split_once_str, h) at e)
  | inr (rest, h) ↦
      let pair_is : some ([], rest) ≡ some (a, b) = rw (split_once_str, h) at e in
      let cut = strip_prefix-eq-some sep [] rest h in ground (arith, pair_is, cut)
]
split_once_str-eq-some sep (c ∷ s) a b e = elim (Option-cases (strip_prefix sep (c ∷ s))) [
  | inr (rest, h) ↦
      let pair_is : some ([], rest) ≡ some (a, b) = rw (split_once_str, h) at e in
      let cut = strip_prefix-eq-some sep (c ∷ s) rest h in ground (arith, pair_is, cut)
  | inl h ↦ elim (Option-cases (split_once_str sep s)) [
    | inl k ↦ cc (rw (split_once_str, h, k) at e)
    | inr ((a', b'), k) ↦
        let pair_is : some (c ∷ a', b') ≡ some (a, b) = rw (split_once_str, h, k) at e in
        let rest = split_once_str-eq-some sep s a' b' k in ground (arith, pair_is, rest)
  ]
]

unfoldable accept : TorrentRef → Result Error TorrentRef
accept = ok

accept_eq : (a b : TorrentRef) → accept a ≡ ok b → a ≡ b
unfolding accept
accept_eq a b e = ground arith

-- A canonical multihash: the two bytes of SHA2-256 and a digest.
abbrev pub IsMultihash : Btmh → Type 0
IsMultihash m = IsArray 34 m.bytes × (take 2 m.bytes ≡ 0x12 ∷ 0x20 ∷ [])

-- What the types of the parts of a reference, and the constructors of `Btmh`, say.
abbrev pub IsTyped : TorrentRef → Type 0
IsTyped (btih h) = IsArray 20 h.bytes
IsTyped (btmh m) = IsMultihash m
IsTyped (verified_hybrid h m) = IsArray 20 h.bytes × IsMultihash m

module _ (x : Crates) (laws : HexLaws x) where
  btih-round :
      (h : InfoHashV1) → IsArray 20 h.bytes → parse_normalized_btih x (info_hash_to_hex x h) ≡ ok h
  unfolding parse_normalized_btih info_hash_to_hex
  btih-round h a = rw (has_other_digits-all (x.hex_encode h.bytes)) (
      ground (
        arith,
        laws.length_encode h.bytes,
        laws.encode_lower h.bytes,
        a.0,
        info_hash-round x laws h a,
      ))

  btih-canonical :
      (s : Bytes) (h : InfoHashV1)
      → parse_normalized_btih x s ≡ ok h
      → (info_hash_to_hex x h ≡ s) × IsArray 20 h.bytes
  unfolding parse_normalized_btih
  btih-canonical s h e =
      let k = rw (has_other_digits-all s) at e in ground (arith, k, info_hash-canonical x laws s h)

  btmh-round : (m : Btmh) → IsMultihash m → btmh_from_str x (btmh_to_text x m) ≡ ok m
  unfolding btmh_from_str btmh_to_text to_array
  btmh-round m (a, p) = rw (has_other_digits-all (x.hex_encode m.bytes)) (
      ground (
        arith,
        laws.length_encode m.bytes,
        laws.encode_lower m.bytes,
        laws.decode_encode m.bytes,
        a.0,
        a.1,
        p,
        (bytes_eq_iff (take 2 m.bytes) (0x12 ∷ 0x20 ∷ [])).1 p,
      ))

  btmh-canonical :
      (s : Bytes) (m : Btmh) → btmh_from_str x s ≡ ok m → (btmh_to_text x m ≡ s) × IsMultihash m
  unfolding btmh_from_str btmh_to_text to_array
  btmh-canonical s m e =
      let k = rw (has_other_digits-all s) at e in
      ground (
        arith,
        k,
        laws.encode_decode s m.bytes,
        laws.decode_IsBytes s m.bytes,
        (bytes_eq_iff (take 2 m.bytes) (0x12 ∷ 0x20 ∷ [])).0,
      )

  hybrid_parts :
      (s a b : Bytes) (h : InfoHashV1) (m : Btmh) (r : TorrentRef) (problem : Error)
      → ok_or (split_once_str (codes ":btmh:") s) problem ≡ ok (a, b)
      → parse_normalized_btih x a ≡ ok h
      → btmh_from_str x b ≡ ok m
      → accept (verified_hybrid h m) ≡ ok r
      → (torrent_ref_to_text x r ≡ codes "hybrid:btih:" ++ s) × IsTyped r
  unfolding torrent_ref_to_text accept
  hybrid_parts s a b h m r problem cut first second done =
      let same : verified_hybrid h m ≡ r = ground arith in
      let (h_text, h_typed) = btih-canonical a h first in
      let (m_text, m_typed) = btmh-canonical b m second in
      let cut : split_once_str (codes ":btmh:") s ≡ some (a, b) = ground arith in
      rw
        (
          ← same,
          torrent_ref_to_text,
          h_text,
          m_text,
          split_once_str-eq-some (codes ":btmh:") s a b cut,
        )
        (refl, (h_typed, m_typed))

  canonical_hybrid :
      (s : Bytes) (r : TorrentRef)
      → hybrid_from_str x s ≡ ok r
      → (torrent_ref_to_text x r ≡ codes "hybrid:btih:" ++ s) × IsTyped r
  unfolding hybrid_from_str accept
  canonical_hybrid s r e =
      let ((a, b), cut, k₁) = >>=-eq-ok (ok_or (split_once_str (codes ":btmh:") s) _) _ e in
      let (h, first, k₂) = >>=-eq-ok (parse_normalized_btih x a) _ k₁ in
      let (m, second, k₃) = >>=-eq-ok (btmh_from_str x b) _ k₂ in
      hybrid_parts s a b h m r _ cut first second k₃

  canonical_btih :
      (s : Bytes) (r : TorrentRef)
      → (do hash ← parse_normalized_btih x s; accept (btih hash)) ≡ ok r
      → (torrent_ref_to_text x r ≡ codes "btih:" ++ s) × IsTyped r
  unfolding torrent_ref_to_text accept
  canonical_btih s r e =
      let (h, read, done) = >>=-eq-ok (parse_normalized_btih x s) _ e in
      let same : btih h ≡ r = accept_eq _ _ done in
      let (text, typed) = btih-canonical s h read in
      rw (← same, torrent_ref_to_text, text) (refl, typed)

  canonical_btmh :
      (s : Bytes) (r : TorrentRef)
      → (do hash ← btmh_from_str x s; accept (btmh hash)) ≡ ok r
      → (torrent_ref_to_text x r ≡ codes "btmh:" ++ s) × IsTyped r
  unfolding torrent_ref_to_text accept
  canonical_btmh s r e =
      let (h, read, done) = >>=-eq-ok (btmh_from_str x s) _ e in
      let same : btmh h ≡ r = accept_eq _ _ done in
      let (text, typed) = btmh-canonical s h read in
      rw (← same, torrent_ref_to_text, text) (refl, typed)

  torrent_ref-canonical :
      (s : Bytes) (r : TorrentRef)
      → torrent_ref_from_str x s ≡ ok r
      → (torrent_ref_to_text x r ≡ s) × IsTyped r
  unfolding torrent_ref_from_str torrent_ref_to_text accept
  torrent_ref-canonical s r e = elim (Option-cases (strip_prefix (codes "btih:") s)) [
    | inr (rest, p) ↦
        let k = rw (torrent_ref_from_str, p) at e in
        rw (strip_prefix-eq-some _ s rest p) (canonical_btih rest r k)
    | inl p ↦ elim (Option-cases (strip_prefix (codes "btmh:") s)) [
      | inr (rest, q) ↦
          let k = rw (torrent_ref_from_str, p, q) at e in
          rw (strip_prefix-eq-some _ s rest q) (canonical_btmh rest r k)
      | inl q ↦ elim (Option-cases (strip_prefix (codes "hybrid:btih:") s)) [
        | inr (rest, t) ↦
            let k = rw (torrent_ref_from_str, p, q, t) at e in
            rw (strip_prefix-eq-some _ s rest t) (canonical_hybrid rest r k)
        | inl t ↦ cc (rw (torrent_ref_from_str, p, q, t) at e)
      ]
    ]
  ]

  torrent_ref-round :
      (r : TorrentRef) → IsTyped r → torrent_ref_from_str x (torrent_ref_to_text x r) ≡ ok r
  unfolding torrent_ref_from_str torrent_ref_to_text hybrid_from_str strip_prefix info_hash_to_hex
  torrent_ref-round (btih h) t = rw (torrent_ref_from_str, btih-round h t)
  torrent_ref-round (btmh m) t = rw (torrent_ref_from_str, btmh-round m t)
  torrent_ref-round (verified_hybrid h m) (t, u) = rw (
    hybrid_from_str,
    split_once_str-append b':' (codes "btmh:") (info_hash_to_hex x h) (btmh_to_text x m) refl
        (laws.encode_lower h.bytes),
    btih-round h t,
    btmh-round m u,
  )

  -- A text is read as a reference exactly when it is what the reference is written as and the
  -- reference is well typed: 20 bytes of a v1 hash, a SHA2-256 multihash of 34 bytes.
  pub torrent_ref_from_str_iff :
      (s : Bytes) (r : TorrentRef)
      → (torrent_ref_from_str x s ≡ ok r) ↔ ((torrent_ref_to_text x r ≡ s) × IsTyped r)
  torrent_ref_from_str_iff s r =
      (torrent_ref-canonical s r, λ (text, typed). rw (← text) (torrent_ref-round r typed))

  -- Two well-typed references that are written alike are equal.
  pub torrent_ref_to_text-injective :
      (a b : TorrentRef)
      → IsTyped a
      → IsTyped b
      → torrent_ref_to_text x a ≡ torrent_ref_to_text x b
      → a ≡ b
  unfolding accept
  torrent_ref_to_text-injective a b t u e =
      accept_eq a b (cc (torrent_ref-round a t, torrent_ref-round b u, e))
