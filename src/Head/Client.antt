-- ===== src/Head/Client.antt =====
-- What the client promises of resolved and published heads.
use pubky_swarm.Base.{
  zero, suc, ◌≡◌, refl, sym, ap, inl, inr, true, Option, none, some, arith, Option-cases,
}
use pubky_swarm.Base.Bytes.{Bytes, bytes_eq_iff}
use pubky_swarm.Base.Int.{ℤ, pos, negsuc, ltb_ℤ, ◌≤ℤ◌, suc_ℤ, eqb_ℤ_sound}
use pubky_swarm.Base.Result.{Result, ok, err, >>=-eq-ok, guard-eq-ok, >>-eq-ok, Result-cases}
use pubky_swarm.Protocol.Ids.{InfoHashV1}
use pubky_swarm.Head.{
  Error, dht, MutableItem, SignedHead, Mainline, dataset_head_salt, encode_bep46_value,
  decode_bep46_value, is_dataset_salt, from_mutable_item, sequence, sequence_of, same_sequence,
  next_sequence, not_rolled_back, sign, resolve, prepare, publish_next, i64_max,
}
use pubky_swarm.Head.Value.{decode_bep46_value_iff}

-- A head that has passed the checks: the dataset's salt, a positive sequence, and the encoding of
-- its info hash.
pub record IsVerified (h : SignedHead) : Type 0 where
  pub salted : h.item.salt ≡ some dataset_head_salt
  pub positive : ltb_ℤ (pos 0) h.item.seq ≡ true
  pub encoded : encode_bep46_value h.info_hash ≡ h.item.value

salt_is : (s : Option Bytes) → is_dataset_salt s ≡ true → s ≡ some dataset_head_salt
unfolding is_dataset_salt
salt_is none h = cc
salt_is (some s) h = ap some ((bytes_eq_iff s dataset_head_salt).0 h)

pub from_mutable_item-IsVerified :
    (item : MutableItem) (h : SignedHead)
    → from_mutable_item item ≡ ok h
    → (h.item ≡ item) × IsVerified h
unfolding from_mutable_item
from_mutable_item-IsVerified item h e =
    let (salted, k₁) = guard-eq-ok (is_dataset_salt item.salt) _ _ e in
    let (positive, k₂) = guard-eq-ok (ltb_ℤ (pos 0) item.seq) _ _ k₁ in
    let (hash, k₃, k₄) = >>=-eq-ok (decode_bep46_value item.value) _ k₂ in
    let same : item ≡ h.item = ground arith in
    let hash_is : hash ≡ h.info_hash = ground arith in
    (
      sym same,
      record {
        salted = rw (← same) (salt_is item.salt salted);
        positive = rw (← same) positive;
        encoded = rw (← same, ← hash_is) (((decode_bep46_value_iff item.value hash).0 k₃).0);
      },
    )

abbrev pub NotBelow : Option ℤ → SignedHead → Type 0
NotBelow none h = Unit
NotBelow (some highest) h = highest ≤ℤ sequence h

not_rolled_back-eq-ok :
    (highest : Option ℤ) (h : SignedHead) → not_rolled_back highest h ≡ ok tt → NotBelow highest h
unfolding not_rolled_back
not_rolled_back-eq-ok none h e = tt
not_rolled_back-eq-ok (some z) h e = ground arith

-- A head that `resolve` returns is what the network holds for the publisher and the dataset's
-- salt, has passed the checks, and is not older than the highest sequence seen.
pub resolve-IsVerified :
    {D : Type 0} (net : Mainline D) (d : D) (publisher : Bytes) (highest : Option ℤ)
    (h : SignedHead)
    → resolve net d publisher highest ≡ ok (some h)
    → (net.get_mutable_most_recent d publisher (some dataset_head_salt) ≡ some h.item)
      × IsVerified h
      × NotBelow highest h
unfolding resolve
resolve-IsVerified net d publisher highest h e =
    elim (Option-cases (net.get_mutable_most_recent d publisher (some dataset_head_salt))) [
      | inl n ↦ cc (rw (n, resolve) at e)
      | inr (item, f) ↦
          let (h', k₁, k₂) = >>=-eq-ok (from_mutable_item item) _ (rw (f, resolve) at e) in
          let (k₃, k₄) = >>-eq-ok (not_rolled_back highest h') _ k₂ in
          let same : h' ≡ h = cc in
          let (item_is, verified) = from_mutable_item-IsVerified item h' k₁ in
          (
            rw (f, ← same) (ap some (sym item_is)),
            rw (← same) verified,
            rw (← same) (not_rolled_back-eq-ok highest h' k₃),
          )
    ]

-- What signing puts into an item.
pub record SignLaws {D : Type 0} (net : Mainline D) : Type 0 where
  pub signed_value :
      (seed value : Bytes) (n : ℤ) (salt : Option Bytes)
      → (net.new_item seed value n salt).value ≡ value
  pub signed_seq :
      (seed value : Bytes) (n : ℤ) (salt : Option Bytes) → (net.new_item seed value n salt).seq ≡ n
  pub signed_key :
      (seed value : Bytes) (n : ℤ) (salt : Option Bytes)
      → (net.new_item seed value n salt).key ≡ net.verifying_key seed

-- The sequence that follows: 1, or one more.
abbrev pub Follows : Option ℤ → ℤ → Type 0
Follows none n = n ≡ pos 1
Follows (some a) n = (n ≡ suc_ℤ a) × (n ≤ℤ pos i64_max)

next_sequence-eq-ok : (a : Option ℤ) (n : ℤ) → next_sequence a ≡ ok n → Follows a n
unfolding next_sequence
next_sequence-eq-ok none n e = ground arith
next_sequence-eq-ok (some (pos a)) n e = ground arith
next_sequence-eq-ok (some (negsuc zero)) n e = ground arith
next_sequence-eq-ok (some (negsuc (suc a))) n e = ground arith

same_sequence_sound : (a b : Option ℤ) → same_sequence a b ≡ true → a ≡ b
unfolding same_sequence
same_sequence_sound none none h = refl
same_sequence_sound (some a) (some b) h = ap some (eqb_ℤ_sound a b h)
same_sequence_sound none (some b) h = cc
same_sequence_sound (some a) none h = cc

-- The head that a publisher signs over the state with sequence `actual`.
pub record IsNext {D : Type 0} (net : Mainline D) (seed : Bytes) (info_hash : InfoHashV1)
    (actual : Option ℤ) (h : SignedHead) : Type 0 where
  pub verified : IsVerified h
  pub of_seed : h.item.key ≡ net.verifying_key seed
  pub value_is : h.item.value ≡ encode_bep46_value info_hash
  pub follows : Follows actual (sequence h)

-- The end of a publication.
abbrev after : SignedHead → Result (Unit {0}) (Unit {0}) → Result Error SignedHead
after h stored = elim stored [ ok _ ↦ ok h | err _ ↦ err dht ]

stored_ok :
    {D : Type 0} (stored : D × Result (Unit {0}) (Unit {0})) (h' h : SignedHead)
    → after h' stored.1 ≡ ok h
    → (h' ≡ h) × (stored ≡ (stored.0, ok tt))
stored_ok (d, ok tt) h' h e = (ground arith, refl)
stored_ok (d, err _) h' h e = cc

module _ {D : Type 0} (net : Mainline D) (laws : SignLaws net) where
  sign-eq-ok :
      (seed : Bytes) (info_hash : InfoHashV1) (n : ℤ) (h : SignedHead)
      → sign net seed info_hash n ≡ ok h
      → IsVerified h
        × (h.item.key ≡ net.verifying_key seed)
        × (h.item.value ≡ encode_bep46_value info_hash)
        × (sequence h ≡ n)
  unfolding sign
  sign-eq-ok seed info_hash n h e =
      let (_, k) = guard-eq-ok (ltb_ℤ (pos 0) n) _ _ e in
      let (item_is, verified) = from_mutable_item-IsVerified _ h k in
      (
        verified,
        rw item_is (laws.signed_key seed _ n (some dataset_head_salt)),
        rw item_is (laws.signed_value seed _ n (some dataset_head_salt)),
        rw item_is (laws.signed_seq seed _ n (some dataset_head_salt)),
      )

  prepare-eq-ok :
      (d : D) (seed : Bytes) (info_hash : InfoHashV1) (expected : Option ℤ) (h : SignedHead)
      (actual : Option ℤ)
      → prepare net d seed info_hash expected ≡ ok (h, actual)
      → (actual ≡ expected)
        × IsNext net seed info_hash actual h
        × ((current : Option SignedHead) × (resolve net d (net.verifying_key seed) none
              ≡ ok current)
            × (sequence_of current ≡ actual))
  unfolding prepare
  prepare-eq-ok d seed info_hash expected h actual e =
      let (current, e₁, k₁) = >>=-eq-ok (resolve net d (net.verifying_key seed) none) _ e in
      let (cas, k₂) = guard-eq-ok (same_sequence (sequence_of current) expected) _ _ k₁ in
      let (n, e₃, k₃) = >>=-eq-ok (next_sequence (sequence_of current)) _ k₂ in
      let (h', e₄, k₄) = >>=-eq-ok (sign net seed info_hash n) _ k₃ in
      let (verified, key, value, seq) = sign-eq-ok seed info_hash n h' e₄ in
      let head_is : h' ≡ h = ground arith in
      let actual_is : sequence_of current ≡ actual = ground arith in
      (
        rw (← actual_is) (same_sequence_sound (sequence_of current) expected cas),
        record {
          verified = rw (← head_is) verified;
          of_seed = rw (← head_is) key;
          value_is = rw (← head_is) value;
          follows =
              rw (← head_is, ← actual_is, seq) (next_sequence-eq-ok (sequence_of current) n e₃);
        },
        (current, e₁, actual_is),
      )

  -- A head that `publish_next` returns has the sequence after the one the caller expected, which
  -- is the one that the network held; it is verified, carries the info hash and the signer's key,
  -- and was stored with that sequence as the one to swap.
  pub publish_next-eq-ok :
      (d : D) (seed : Bytes) (info_hash : InfoHashV1) (expected : Option ℤ) (h : SignedHead)
      → (publish_next net d seed info_hash expected).1 ≡ ok h
      → IsNext net seed info_hash expected h
        × ((current : Option SignedHead) × (resolve net d (net.verifying_key seed) none
              ≡ ok current)
            × (sequence_of current ≡ expected))
        × (net.put_mutable d h.item expected
            ≡ ((publish_next net d seed info_hash expected).0, ok tt))
  unfolding publish_next
  publish_next-eq-ok d seed info_hash expected h e =
      elim (Result-cases (prepare net d seed info_hash expected)) [
        | inr (x, k) ↦ cc (rw (k, publish_next) at e)
        | inl ((h', actual), k) ↦
            let (head_is, stored) =
              stored_ok (net.put_mutable d h'.item actual) h' h (rw (k, publish_next) at e) in
            let (actual_is, next, held) = prepare-eq-ok d seed info_hash expected h' actual k in
            (
              rw (← head_is, ← actual_is) next,
              rw (← actual_is) held,
              rw (k, publish_next, ← head_is, ← actual_is) stored,
            )
      ]

-- A publication that fails before the network has stored anything leaves the network alone.
pub publish_next_failed :
    {D : Type 0} (net : Mainline D) (d : D) (seed : Bytes) (info_hash : InfoHashV1)
    (expected : Option ℤ) (e : Error)
    → prepare net d seed info_hash expected ≡ err e
    → publish_next net d seed info_hash expected ≡ (d, err e)
unfolding publish_next
publish_next_failed net d seed info_hash expected e k = rw (k, publish_next)
