-- ===== src/Head/Value.antt =====
-- The BEP 46 value and its decoder are inverse.
use pubky_swarm.Base.{
  ℕ, zero, suc, ◌≡◌, refl, sym, ap, ◌↔◌, true, some, Option-cases, inl, inr, [], ◌∷◌, ◌++◌, arith,
  length, take, drop, get_elem?, take-append, length-append, length-take,
}
use pubky_swarm.Base.Bytes.{Bytes, codes, starts_with, strip_prefix, strip_prefix-eq-some}
use pubky_swarm.Base.Result.{ok}
use pubky_swarm.Protocol.Ids.{InfoHashV1}
use pubky_swarm.Head.{bep46_value_prefix, encode_bep46_value, decode_bep46_value, last_is_e}

last_split :
    (n : ℕ) (r : Bytes) (b : ℕ)
    → length r ≡ suc n
    → get_elem? r n ≡ some b
    → r ≡ take n r ++ (b ∷ [])
last_split n [] b l e = cc
last_split zero (c ∷ []) b l e = cc
last_split zero (c ∷ d ∷ r) b l e = absurd (omega arith)
last_split (suc n) (c ∷ r) b l e = ap (◌∷◌ c) (last_split n r b (omega arith) e)

last_at : (xs : Bytes) (n b : ℕ) → length xs ≡ n → get_elem? (xs ++ (b ∷ [])) n ≡ some b
last_at [] zero b l = refl
last_at [] (suc n) b l = absurd (omega arith)
last_at (x ∷ xs) zero b l = absurd (omega arith)
last_at (x ∷ xs) (suc n) b l = last_at xs n b (omega arith)

decode-encode :
    (h : InfoHashV1) → length h.bytes ≡ 20 → decode_bep46_value (encode_bep46_value h) ≡ ok h
unfolding decode_bep46_value encode_bep46_value bep46_value_prefix starts_with strip_prefix
decode-encode h n =
    let total : length (h.bytes ++ codes "e") ≡ 21 =
      omega (arith, length-append h.bytes (codes "e")) in
    rw (take-append 20 h.bytes (codes "e") n) (ground (arith, total, last_at h.bytes 20 b'e' n))

-- What an accepted value is made of.
record Parts (value : Bytes) (h : InfoHashV1) : Type 0 where
  long : length value ≡ 29
  prefixed : starts_with bep46_value_prefix value ≡ true
  ended : last_is_e value ≡ true
  hash : take 20 (drop 8 value) ≡ h.bytes

decode-Parts : (value : Bytes) (h : InfoHashV1) → decode_bep46_value value ≡ ok h → Parts value h
unfolding decode_bep46_value
decode-Parts value h e = ground arith

prefix_rest :
    (value : Bytes)
    → starts_with bep46_value_prefix value ≡ true
    → (r : Bytes) × (value ≡ bep46_value_prefix ++ r)
unfolding starts_with
prefix_rest value h = elim (Option-cases (strip_prefix bep46_value_prefix value)) [
  | inl n ↦ cc (rw (n, starts_with) at h)
  | inr (r, e) ↦ (r, strip_prefix-eq-some bep46_value_prefix value r e)
]

encode-decode :
    (value : Bytes) (h : InfoHashV1)
    → decode_bep46_value value ≡ ok h
    → (encode_bep46_value h ≡ value) × (length h.bytes ≡ 20)
unfolding encode_bep46_value bep46_value_prefix last_is_e
encode-decode value h e =
    let p = decode-Parts value h e in
    let (r, split) = prefix_rest value p.prefixed in
    let long : length r ≡ 21 = omega (arith, p.long, ap (length {A = ℕ}) split) in
    let last : get_elem? r 20 ≡ some b'e' = last_e r (rw split at p.ended) in
    let hash : take 20 r ≡ h.bytes = rw split at p.hash in
    (
      rw (split, ← hash)
          (ap (λ (t : Bytes). bep46_value_prefix ++ t) (sym (last_split 20 r b'e' long last))),
      rw (← hash) (omega (arith, length-take 20 r)),
    )
  where
    last_e : (r : Bytes) → last_is_e (bep46_value_prefix ++ r) ≡ true → get_elem? r 20 ≡ some b'e'
    last_e r h = ground arith

-- A value is accepted for an info hash exactly when it is that hash's encoding and the hash has
-- 20 bytes.
pub decode_bep46_value_iff :
    (value : Bytes) (h : InfoHashV1)
    → (decode_bep46_value value ≡ ok h) ↔ ((encode_bep46_value h ≡ value) × (length h.bytes ≡ 20))
decode_bep46_value_iff value h = (encode-decode value h, λ (e, n). rw (← e) (decode-encode h n))
