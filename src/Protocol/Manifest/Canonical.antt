-- ===== src/Protocol/Manifest/Canonical.antt =====
-- Canonical bytes that are accepted are the ones that the manifest is written as.
use mathlib.Core.Path.{subst, subst₂}
use pubky_swarm.Base.{
  ℕ, zero, suc, ◌≤◌, ◌<◌, ◌^◌, ◌≡◌, refl, sym, ap, true, not, List, [], ◌∷◌, ◌++◌, arith, ltb,
  length, take, drop, All, append_assoc, append-nil, length-take, All-take, All-drop,
  take-append-drop,
}
use pubky_swarm.Base.Bytes.{
  Bytes, IsByte, IsBytes, to_be_bytes, from_be_bytes, to-from_be_bytes, from_be_bytes-le, bytes_eq,
  bytes_eq_iff,
}
use pubky_swarm.Base.Utf8.{is_utf8}
use pubky_swarm.Base.Result.{Result, ok, >>=-eq-ok, guard-eq-ok, >>-eq-ok}
use pubky_swarm.Protocol.Error.{Error}
use pubky_swarm.Protocol.Crates.{Crates}
use pubky_swarm.Protocol.Ids.{PublisherId, publisher_from_bytes}
use pubky_swarm.Protocol.Manifest.{
  ManifestObjectV1, DatasetManifestV1, manifest_schema, manifest_version, max_manifest_objects,
  validate,
}
use pubky_swarm.Protocol.Manifest.Codec.{
  manifest_prefix, write_object, write_objects, to_canonical_bytes, take_bytes, take_u64,
  read_object, read_objects, is_empty, from_canonical_bytes,
}
use pubky_swarm.Protocol.Manifest.RoundTrip.{IsTypedObject, IsTyped}

-- The bytes that a cursor `c` gave, and what is left.
record Taken (c h s : Bytes) : Type 0 where
  splits : c ≡ h ++ s
  head_bytes : IsBytes h
  rest_bytes : IsBytes s

take_bytes-eq-ok :
    (n : ℕ) (c h s : Bytes) → IsBytes c → take_bytes n c ≡ ok (h, s) → Taken c h s × (length h ≡ n)
unfolding take_bytes
take_bytes-eq-ok n c h s b e =
    let front : take n c ≡ h = ground arith in
    let back : drop n c ≡ s = ground arith in
    let fits : n ≤ length c = ground arith in
    (
      record {
        splits = rw (← front, ← back) (sym (take-append-drop n c));
        head_bytes = rw (← front) (All-take IsByte n c b);
        rest_bytes = rw (← back) (All-drop IsByte n c b);
      },
      rw (← front) (omega (arith, length-take n c)),
    )

take_u64-eq-ok :
    (c : Bytes) (v : ℕ) (s : Bytes)
    → IsBytes c
    → take_u64 c ≡ ok (v, s)
    → Taken c (to_be_bytes 8 v) s × (v < 2 ^ 64)
unfolding take_u64
take_u64-eq-ok c v s b e =
    let ((h, r), taken, rest) = >>=-eq-ok (take_bytes 8 c) _ e in
    let (t, eight) = take_bytes-eq-ok 8 c h r b taken in
    let value : from_be_bytes 0 h ≡ v = ground arith in
    let same : r ≡ s = ground arith in
    let back = to-from_be_bytes h eight t.head_bytes in
    (
      record {
        splits = rw (← value, back, ← same) t.splits;
        head_bytes = rw (← value, back) t.head_bytes;
        rest_bytes = rw (← same) t.rest_bytes;
      },
      rw (← value) (from_be_bytes-le h eight t.head_bytes),
    )

glue :
    (c a c₁ p c₂ b c₃ d c₄ : Bytes)
    → c ≡ a ++ c₁
    → c₁ ≡ p ++ c₂
    → c₂ ≡ b ++ c₃
    → c₃ ≡ d ++ c₄
    → c ≡ (a ++ (p ++ (b ++ d))) ++ c₄
glue c a c₁ p c₂ b c₃ d c₄ e₁ e₂ e₃ e₄ = rw (e₁, e₂, e₃, e₄) (simp append_assoc)

ok_pair {ℓ} :
    {A : Type ℓ} {a b : A} {s t : Bytes}
    → ◌≡◌ {A = Result Error (A × Bytes)} (ok (a, s)) (ok (b, t))
    → (a ≡ b) × (s ≡ t)
ok_pair e = (cc, cc)

-- An object from the parts that were taken one after the other.
object-Taken :
    (c : Bytes) (n : ℕ) (c₁ p c₂ : Bytes) (z : ℕ) (c₃ d c₄ : Bytes)
    → Taken c (to_be_bytes 8 n) c₁ × (n < 2 ^ 64)
    → Taken c₁ p c₂ × (length p ≡ n)
    → is_utf8 p ≡ true
    → Taken c₂ (to_be_bytes 8 z) c₃ × (z < 2 ^ 64)
    → Taken c₃ d c₄ × (length d ≡ 32)
    → let o : ManifestObjectV1 = record { path = p; size = z; digest = record { bytes = d } } in
      (c ≡ write_object o ++ c₄) × IsTypedObject o × IsBytes c₄
unfolding write_object
object-Taken c n c₁ p c₂ z c₃ d c₄ (t₁, r₁) (t₂, l₂) text (t₃, r₃) (t₄, l₄) = (
  rw l₂ (glue c _ c₁ p c₂ _ c₃ d c₄ t₁.splits t₂.splits t₃.splits t₄.splits),
  record {
    path_text = text;
    path_bytes = t₂.head_bytes;
    path_length = rw l₂ r₁;
    size_range = r₃;
    digest_array = (l₄, t₄.head_bytes);
  },
  t₄.rest_bytes,
)

read_object-eq-ok :
    (c : Bytes) (o : ManifestObjectV1) (s : Bytes)
    → IsBytes c
    → read_object c ≡ ok (o, s)
    → (c ≡ write_object o ++ s) × IsTypedObject o × IsBytes s
unfolding read_object
read_object-eq-ok c o s b e =
    let ((n, c₁), e₁, k₁) = >>=-eq-ok (take_u64 c) _ e in
    let t₁ = take_u64-eq-ok c n c₁ b e₁ in
    let ((p, c₂), e₂, k₂) = >>=-eq-ok (take_bytes n c₁) _ k₁ in
    let t₂ = take_bytes-eq-ok n c₁ p c₂ t₁.0.rest_bytes e₂ in
    let (text, k₃) = guard-eq-ok (is_utf8 p) _ _ k₂ in
    let ((z, c₃), e₃, k₄) = >>=-eq-ok (take_u64 c₂) _ k₃ in
    let t₃ = take_u64-eq-ok c₂ z c₃ t₂.0.rest_bytes e₃ in
    let ((d, c₄), e₄, k₅) = >>=-eq-ok (take_bytes 32 c₃) _ k₄ in
    let t₄ = take_bytes-eq-ok 32 c₃ d c₄ t₃.0.rest_bytes e₄ in
    let (same, left) = ok_pair k₅ in
    subst₂ (λ o s. (c ≡ write_object o ++ s) × IsTypedObject o × IsBytes s) same left
      (object-Taken c n c₁ p c₂ z c₃ d c₄ t₁ t₂ text t₃ t₄)

objects_taken :
    (c : Bytes) (o : ManifestObjectV1) (c₁ : Bytes) (os : List ManifestObjectV1) (s : Bytes)
    → (c ≡ write_object o ++ c₁) × IsTypedObject o
    → (c₁ ≡ write_objects os ++ s) × All IsTypedObject os
    → c ≡ write_objects (o ∷ os) ++ s
unfolding write_objects
objects_taken c o c₁ os s t₁ t₂ = rw (t₁.0, t₂.0) (simp append_assoc)

read_objects-eq-ok :
    (n : ℕ) (c : Bytes) (os : List ManifestObjectV1) (s : Bytes)
    → IsBytes c
    → read_objects n c ≡ ok (os, s)
    → (c ≡ write_objects os ++ s) × All IsTypedObject os × (length os ≡ n) × IsBytes s
unfolding read_objects
read_objects-eq-ok zero c os s b e =
    let (none_read, same) = ok_pair {A = List ManifestObjectV1} e in
    rw (← none_read, ← same) (unfold write_objects in (refl, tt, refl, b))
read_objects-eq-ok (suc n) c os s b e =
    let ((o, c₁), e₁, k₁) = >>=-eq-ok (read_object c) _ e in
    let (split₁, typed, b₁) = read_object-eq-ok c o c₁ b e₁ in
    let ((rest, c₂), e₂, k₂) = >>=-eq-ok (read_objects n c₁) _ k₁ in
    let (split₂, typed_rest, count, b₂) = read_objects-eq-ok n c₁ rest c₂ b₁ e₂ in
    let (same, left) = ok_pair {A = List ManifestObjectV1} k₂ in
    subst₂
      (λ os s. (c ≡ write_objects os ++ s) × All IsTypedObject os × (length os ≡ suc n) × IsBytes s)
      same left
      (
        objects_taken c o c₁ rest c₂ (split₁, typed) (split₂, typed_rest),
        (typed, typed_rest),
        ap suc count,
        b₂,
      )

publisher-eq-ok :
    (x : Crates) (k : Bytes) (p : PublisherId)
    → publisher_from_bytes x k ≡ ok p
    → (x.is_key k ≡ true) × (k ≡ p.key)
unfolding publisher_from_bytes
publisher-eq-ok x k p e = ground arith

empty : (c : Bytes) → is_empty c ≡ true → c ≡ []
empty [] h = refl
empty (_ ∷ _) h = cc

ok_inj {ℓ} : {A : Type ℓ} {a b : A} → ◌≡◌ {A = Result Error A} (ok a) (ok b) → a ≡ b
ok_inj e = cc

abbrev of_parts : PublisherId → ℕ → List ManifestObjectV1 → DatasetManifestV1
of_parts publisher created_at objects = record {
  schema = manifest_schema;
  version = manifest_version;
  publisher = publisher;
  created_at = created_at;
  objects = objects;
}

-- A manifest from the parts that were taken one after the other.
manifest-Taken :
    (x : Crates) (bytes p c₁ key c₂ : Bytes) (publisher : PublisherId) (created : ℕ) (c₃ : Bytes)
    (count : ℕ) (c₄ : Bytes) (os : List ManifestObjectV1) (c₅ : Bytes)
    → Taken bytes p c₁
    → bytes_eq p manifest_prefix ≡ true
    → Taken c₁ key c₂ × (length key ≡ 32)
    → (x.is_key key ≡ true) × (key ≡ publisher.key)
    → Taken c₂ (to_be_bytes 8 created) c₃ × (created < 2 ^ 64)
    → Taken c₃ (to_be_bytes 8 count) c₄
    → (c₄ ≡ write_objects os ++ c₅) × All IsTypedObject os × (length os ≡ count)
    → is_empty c₅ ≡ true
    → (to_canonical_bytes (of_parts publisher created os) ≡ bytes)
      × IsTyped x (of_parts publisher created os)
unfolding to_canonical_bytes
manifest-Taken x bytes p c₁ key c₂ publisher created c₃ count c₄ os c₅ t₁ is_prefix (t₂, l₂)
      (valid, key_is) (t₃, r₃) t₄ (split, typed, counted) at_end =
    (
      rw
          (
            t₁.splits,
            t₂.splits,
            t₃.splits,
            t₄.splits,
            split,
            empty c₅ at_end,
            append-nil,
            counted,
            (bytes_eq_iff p manifest_prefix).0 is_prefix,
            key_is,
          )
          refl,
      record {
        key_array = rw (← key_is) (l₂, t₂.head_bytes);
        key_valid = rw (← key_is) valid;
        created_range = r₃;
        typed_objects = typed;
      },
    )

-- Bytes that `from_canonical_bytes` accepts are exactly what the manifest is written as, and the
-- manifest is valid.
pub to-from_canonical_bytes :
    (x : Crates) (bytes : Bytes) (m : DatasetManifestV1)
    → IsBytes bytes
    → from_canonical_bytes x bytes ≡ ok m
    → (to_canonical_bytes m ≡ bytes) × (validate m ≡ ok tt) × IsTyped x m
unfolding from_canonical_bytes
to-from_canonical_bytes x bytes m b e =
    let ((p, c₁), e₁, k₁) = >>=-eq-ok (take_bytes (length manifest_prefix) bytes) _ e in
    let (t₁, _) = take_bytes-eq-ok _ bytes p c₁ b e₁ in
    let (is_prefix, k₂) = guard-eq-ok (bytes_eq p manifest_prefix) _ _ k₁ in
    let ((key, c₂), e₂, k₃) = >>=-eq-ok (take_bytes 32 c₁) _ k₂ in
    let t₂ = take_bytes-eq-ok 32 c₁ key c₂ t₁.rest_bytes e₂ in
    let (publisher, e₃, k₄) = >>=-eq-ok (publisher_from_bytes x key) _ k₃ in
    let ((created, c₃), e₄, k₅) = >>=-eq-ok (take_u64 c₂) _ k₄ in
    let t₃ = take_u64-eq-ok c₂ created c₃ t₂.0.rest_bytes e₄ in
    let ((count, c₄), e₅, k₆) = >>=-eq-ok (take_u64 c₃) _ k₅ in
    let t₄ = take_u64-eq-ok c₃ count c₄ t₃.0.rest_bytes e₅ in
    let (_, k₇) = guard-eq-ok (not (ltb max_manifest_objects count)) _ _ k₆ in
    let ((os, c₅), e₆, k₈) = >>=-eq-ok (read_objects count c₄) _ k₇ in
    let (split, typed, counted, _) = read_objects-eq-ok count c₄ os c₅ t₄.0.rest_bytes e₆ in
    let (at_end, k₉) = guard-eq-ok (is_empty c₅) _ _ k₈ in
    let (valid, k₁₀) = >>-eq-ok (validate (of_parts publisher created os)) _ k₉ in
    let (written, is_typed) =
      manifest-Taken x bytes p c₁ key c₂ publisher created c₃ count c₄ os c₅ t₁ is_prefix t₂
        (publisher-eq-ok x key publisher e₃) t₃ t₄.0 (split, typed, counted) at_end in
    subst (λ m. (to_canonical_bytes m ≡ bytes) × (validate m ≡ ok tt) × IsTyped x m) (ok_inj k₁₀)
      (written, valid, is_typed)
