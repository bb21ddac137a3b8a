-- ===== src/Protocol/Artifact/Writer.antt =====
-- What `CanonicalWriter` appends can be told apart from what follows it.
use pubky_swarm.Base.{
  ℕ, ◌<◌, ◌^◌, ◌≡◌, refl, Option, none, some, List, [], ◌∷◌, ◌++◌, arith, length, All,
}
use pubky_swarm.Base.Lists.{take-append, drop-append, length-append}
use mathlib.Core.List.{append_assoc, append-nil}
use pubky_swarm.Base.Bytes.{Bytes, codes, to_be_bytes, length-to_be_bytes, from-to_be_bytes}
use pubky_swarm.Protocol.Crates.{Crates, HexLaws}
use pubky_swarm.Protocol.Ids.{PublisherId, info_hash_to_hex}
use pubky_swarm.Protocol.Import.{
  TorrentRef, btih, btmh, verified_hybrid, ImportProvenance, info_authenticated, top_level_hint,
  magnet_hint, indexer_claim, local_client,
}
use pubky_swarm.Protocol.Subject.{
  btmh_to_text, torrent_ref_to_text, CanonicalUri, SubjectRef, torrent, uri, SourceAttribution,
  direct, source_uri, imported,
}
use pubky_swarm.Protocol.Subject.RoundTrip.{IsTyped, torrent_ref_to_text-injective}
use pubky_swarm.Protocol.Artifact.{
  write_u64, write_string, write_publisher, write_subject, write_each, write_subjects,
  write_provenance, write_locator, write_source,
}

-- Two writings with anything behind them agree only if the values and what is behind agree.
abbrev pub IsDelimited {ℓ} : {A : Type ℓ} → (A → Type 0) → (A → Bytes) → Type ℓ
IsDelimited {A = A} P write =
    (a b : A) (s t : Bytes) → P a → P b → write a ++ s ≡ write b ++ t → (a ≡ b) × (s ≡ t)

append_cancel :
    (n : ℕ) (a b s t : Bytes) → length a ≡ n → length b ≡ n → a ++ s ≡ b ++ t → (a ≡ b) × (s ≡ t)
append_cancel n a b s t h k e = (
  cc (take-append n a s h, take-append n b t k, e),
  cc (drop-append n a s h, drop-append n b t k, e),
)

pub prefix_cancel : (p s t : Bytes) → p ++ s ≡ p ++ t → s ≡ t
prefix_cancel p s t e = (append_cancel (length p) p p s t refl refl e).1

abbrev pub IsU64 : ℕ → Type 0
IsU64 v = v < 2 ^ 64

pub write_u64-IsDelimited : IsDelimited IsU64 write_u64
unfolding write_u64
write_u64-IsDelimited a b s t h k e =
    let (same, rest) =
      append_cancel 8 (to_be_bytes 8 a) (to_be_bytes 8 b) s t (length-to_be_bytes 8 a)
        (length-to_be_bytes 8 b) e in
    (cc (from-to_be_bytes a h, from-to_be_bytes b k, same), rest)

-- A text that fits a `usize`.
abbrev pub IsText : Bytes → Type 0
IsText s = IsU64 (length s)

pub write_string-IsDelimited : IsDelimited IsText write_string
unfolding write_string
write_string-IsDelimited a b s t h k e =
    let e' =
      rw (append_assoc (write_u64 (length a)) a s, append_assoc (write_u64 (length b)) b t) at e in
    let (same, rest) = write_u64-IsDelimited (length a) (length b) (a ++ s) (b ++ t) h k e' in
    append_cancel (length b) a b s t same refl rest

abbrev pub IsKey : PublisherId → Type 0
IsKey p = length p.key ≡ 32

pub write_publisher-IsDelimited : IsDelimited IsKey write_publisher
unfolding write_publisher
write_publisher-IsDelimited a b s t h k e =
    let (same, rest) = append_cancel 32 a.key b.key s t h k e in (cc same, rest)

abbrev pub IsUri : CanonicalUri → Type 0
IsUri u = IsText u.text

IsUri-IsDelimited : IsDelimited IsUri (λ u. write_string u.text)
IsUri-IsDelimited a b s t h k e =
    let (same, rest) = write_string-IsDelimited a.text b.text s t h k e in (cc same, rest)

abbrev pub IsSubject : SubjectRef → Type 0
IsSubject (torrent r) = IsTyped r
IsSubject (uri u) = IsUri u

abbrev pub IsSubjects : List SubjectRef → Type 0
IsSubjects subjects = IsU64 (length subjects) × All IsSubject subjects

module _ (x : Crates) (laws : HexLaws x) where
  torrent_ref_to_text-IsText : (r : TorrentRef) → IsTyped r → IsText (torrent_ref_to_text x r)
  unfolding torrent_ref_to_text info_hash_to_hex btmh_to_text
  torrent_ref_to_text-IsText (btih h) t = omega (arith, laws.length_encode h.bytes, t.0)
  torrent_ref_to_text-IsText (btmh m) t = omega (arith, laws.length_encode m.bytes, t.0.0)
  torrent_ref_to_text-IsText (verified_hybrid h m) (t, u) =
      let both = length-append (x.hex_encode h.bytes) (codes ":btmh:" ++ x.hex_encode m.bytes) in
      omega (arith, laws.length_encode h.bytes, laws.length_encode m.bytes, t.0, u.0.0, both)

  pub write_subject-IsDelimited : IsDelimited IsSubject (write_subject x)
  unfolding write_subject
  write_subject-IsDelimited (torrent a) (torrent b) s t h k e =
      let (same, rest) =
        write_string-IsDelimited (torrent_ref_to_text x a) (torrent_ref_to_text x b) s t
          (torrent_ref_to_text-IsText a h) (torrent_ref_to_text-IsText b k) cc in
      (cc (torrent_ref_to_text-injective x laws a b h k same), rest)
  write_subject-IsDelimited (uri a) (uri b) s t h k e =
      let (same, rest) = IsUri-IsDelimited a b s t h k cc in (cc same, rest)
  write_subject-IsDelimited (torrent a) (uri b) s t h k e = cc
  write_subject-IsDelimited (uri a) (torrent b) s t h k e = cc

  -- Of lists of the same length.
  write_each-injective :
      (as' bs : List SubjectRef) (s t : Bytes)
      → All IsSubject as'
      → All IsSubject bs
      → length as' ≡ length bs
      → write_each x as' ++ s ≡ write_each x bs ++ t
      → (as' ≡ bs) × (s ≡ t)
  unfolding write_each
  write_each-injective [] [] s t h k l e = (refl, e)
  write_each-injective [] (b ∷ bs) s t h k l e = absurd (omega arith)
  write_each-injective (a ∷ as') [] s t h k l e = absurd (omega arith)
  write_each-injective (a ∷ as') (b ∷ bs) s t (h, hs) (k, ks) l e =
      let e' =
        rw
          (
            append_assoc (write_subject x a) (write_each x as') s,
            append_assoc (write_subject x b) (write_each x bs) t,
          )
          at e in
      let (same, rest) =
        write_subject-IsDelimited a b (write_each x as' ++ s) (write_each x bs ++ t) h k e' in
      let (others, end) = write_each-injective as' bs s t hs ks (omega arith) rest in
      (cc (same, others), end)

  pub write_subjects-IsDelimited : IsDelimited IsSubjects (write_subjects x)
  unfolding write_subjects
  write_subjects-IsDelimited a b s t (h, hs) (k, ks) e =
      let e' =
        rw
          (
            append_assoc (write_u64 (length a)) (write_each x a) s,
            append_assoc (write_u64 (length b)) (write_each x b) t,
          )
          at e in
      let (same, rest) =
        write_u64-IsDelimited (length a) (length b) (write_each x a ++ s) (write_each x b ++ t) h k
          e' in
      write_each-injective a b s t hs ks same rest

abbrev pub IsProvenance : ImportProvenance → Type 0
IsProvenance (indexer_claim issuer) = IsKey issuer
IsProvenance _ = Unit

write_provenance-IsDelimited : IsDelimited IsProvenance write_provenance
unfolding write_provenance
write_provenance-IsDelimited (indexer_claim a) (indexer_claim b) s t h k e =
    let (same, rest) = write_publisher-IsDelimited a b s t h k cc in (cc same, rest)
write_provenance-IsDelimited info_authenticated info_authenticated s t h k e = (refl, cc)
write_provenance-IsDelimited top_level_hint top_level_hint s t h k e = (refl, cc)
write_provenance-IsDelimited magnet_hint magnet_hint s t h k e = (refl, cc)
write_provenance-IsDelimited local_client local_client s t h k e = (refl, cc)
write_provenance-IsDelimited a b s t h k e = cc

abbrev pub IsLocator : Option CanonicalUri → Type 0
IsLocator none = Unit
IsLocator (some u) = IsUri u

write_locator-IsDelimited : IsDelimited IsLocator write_locator
unfolding write_locator
write_locator-IsDelimited none none s t h k e = (refl, cc)
write_locator-IsDelimited (some a) (some b) s t h k e =
    let (same, rest) = IsUri-IsDelimited a b s t h k cc in (cc same, rest)
write_locator-IsDelimited none (some b) s t h k e = cc
write_locator-IsDelimited (some a) none s t h k e = cc

abbrev pub IsSource : SourceAttribution → Type 0
IsSource direct = Unit
IsSource (source_uri u) = IsUri u
IsSource (imported provenance locator) = IsProvenance provenance × IsLocator locator

pub write_source-IsDelimited : IsDelimited IsSource write_source
unfolding write_source
write_source-IsDelimited direct direct s t h k e = (refl, cc)
write_source-IsDelimited (source_uri a) (source_uri b) s t h k e =
    let (same, rest) = IsUri-IsDelimited a b s t h k cc in (cc same, rest)
write_source-IsDelimited (imported p l) (imported q m) s t (h, hl) (k, kl) e =
    let both : (write_provenance p ++ write_locator l) ++ s
        ≡ (write_provenance q ++ write_locator m) ++ t =
      cc in
    let e' =
      rw
        (
          append_assoc (write_provenance p) (write_locator l) s,
          append_assoc (write_provenance q) (write_locator m) t,
        )
        at both in
    let (same, rest) =
      write_provenance-IsDelimited p q (write_locator l ++ s) (write_locator m ++ t) h k e' in
    let (same_locator, end) = write_locator-IsDelimited l m s t hl kl rest in
    (cc (same, same_locator), end)
write_source-IsDelimited direct (source_uri b) s t h k e = cc
write_source-IsDelimited direct (imported q m) s t h k e = cc
write_source-IsDelimited (source_uri a) direct s t h k e = cc
write_source-IsDelimited (source_uri a) (imported q m) s t h k e = cc
write_source-IsDelimited (imported p l) direct s t h k e = cc
write_source-IsDelimited (imported p l) (source_uri b) s t h k e = cc

-- What ends each of the canonical forms.
pub end-injective :
    (c d r q : ℕ) (f g : SourceAttribution)
    → IsU64 c × IsU64 r × IsSource f
    → IsU64 d × IsU64 q × IsSource g
    → write_u64 c ++ (write_u64 r ++ write_source f)
      ≡ write_u64 d ++ (write_u64 q ++ write_source g)
    → (c ≡ d) × (r ≡ q) × (f ≡ g)
end-injective c d r q f g (hc, hr, hf) (kd, kq, kg) e =
    let (created, k₁) = write_u64-IsDelimited c d _ _ hc kd e in
    let (revision, k₂) = write_u64-IsDelimited r q _ _ hr kq k₁ in
    let k₃ : write_source f ++ [] ≡ write_source g ++ [] =
      cc (append-nil (write_source f), append-nil (write_source g), k₂) in
    let (source, _) = write_source-IsDelimited f g [] [] hf kg k₃ in (created, revision, source)
