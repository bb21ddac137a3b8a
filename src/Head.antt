-- ===== src/Head.antt =====
-- crates/swarm-head/src/lib.rs. An `i64` is an integer, with its upper bound in `checked_add`.
pub mod Value
pub mod Client
use Prim.Native.String.{String}
use pubky_swarm.Base.{
  ℕ, ◌^◌, ◌-◌, ◌≡◌, Bool, true, false, not, ◌||◌, Option, none, some, List, [], ◌∷◌, ◌++◌, ltb,
  ◌==◌, if◌then◌else◌, length, take, drop, get_elem?,
}
use pubky_swarm.Base.Bytes.{Bytes, codes, bytes_eq, starts_with}
use pubky_swarm.Base.Int.{ℤ, pos, negsuc, ltb_ℤ, eqb_ℤ, suc_ℤ}
use pubky_swarm.Base.Result.{Result, ok, err, ◌>>=◌, ◌>>◌, guard}
use pubky_swarm.Protocol.Ids.{InfoHashV1}

pub data Error : Type 0 where
  invalid_bep46_value : Error
  unexpected_salt : Error
  invalid_sequence : ℤ → Error
  sequence_exhausted : Error
  concurrent_update : Option ℤ → Option ℤ → Error
  rollback : ℤ → ℤ → Error
  dht : Error

unfoldable pub dataset_head_salt : Bytes
dataset_head_salt = codes "pubky.swarm/v1/dataset"

unfoldable pub bep46_value_prefix : Bytes
bep46_value_prefix = codes "d2:ih20:"

abbrev pub bep46_value_len : ℕ
bep46_value_len = 29

abbrev pub i64_max : ℕ
i64_max = 2 ^ 63 - 1

-- The three parts that are copied into the array.
unfoldable pub encode_bep46_value : InfoHashV1 → Bytes
encode_bep46_value info_hash = bep46_value_prefix ++ (info_hash.bytes ++ codes "e")

-- `value[28]`, behind the test of the length.
last_is_e : Bytes → Bool
last_is_e value = elim (get_elem? value 28) [ none ↦ false | some b ↦ b == b'e' ]

unfoldable pub decode_bep46_value : Bytes → Result Error InfoHashV1
unfolding last_is_e
decode_bep46_value value =
    if not (length value == bep46_value_len)
      || not (starts_with bep46_value_prefix value)
      || not (last_is_e value)
    then err invalid_bep46_value
    else ok (record { bytes = take 20 (drop 8 value) })

-- What the program reads of mainline's `MutableItem`.
pub record MutableItem : Type 0 where
  pub key : Bytes
  pub value : Bytes
  pub seq : ℤ
  pub salt : Option Bytes

pub record SignedHead : Type 0 where
  pub item : MutableItem
  pub info_hash : InfoHashV1

-- The functions of the `mainline` crate that the program calls, over its state `D`: signing,
-- the key of a seed, the lookup, and the store with its compare-and-swap argument.
pub record Mainline (D : Type 0) : Type 0 where
  pub new_item : Bytes → Bytes → ℤ → Option Bytes → MutableItem
  pub verifying_key : Bytes → Bytes
  pub get_mutable_most_recent : D → Bytes → Option Bytes → Option MutableItem
  pub put_mutable : D → MutableItem → Option ℤ → D × Result (Unit {0}) (Unit {0})

is_dataset_salt : Option Bytes → Bool
is_dataset_salt none = false
is_dataset_salt (some salt) = bytes_eq salt dataset_head_salt

unfoldable pub from_mutable_item : MutableItem → Result Error SignedHead
unfolding is_dataset_salt
from_mutable_item item = do
  guard (is_dataset_salt item.salt) unexpected_salt
  guard (ltb_ℤ (pos 0) item.seq) (invalid_sequence item.seq)
  info_hash ← decode_bep46_value item.value
  ok (record { item = item; info_hash = info_hash })

abbrev pub sequence : SignedHead → ℤ
sequence head = head.item.seq

abbrev pub sequence_of : Option SignedHead → Option ℤ
sequence_of none = none
sequence_of (some head) = some (sequence head)

-- `actual != expected_previous`.
unfoldable pub same_sequence : Option ℤ → Option ℤ → Bool
same_sequence none none = true
same_sequence (some a) (some b) = eqb_ℤ a b
same_sequence _ _ = false

-- `actual.unwrap_or(0).checked_add(1)`.
unfoldable pub next_sequence : Option ℤ → Result Error ℤ
next_sequence none = ok (pos 1)
next_sequence (some a) = if ltb_ℤ a (pos i64_max) then ok (suc_ℤ a) else err sequence_exhausted

-- The test against `highest_seen`.
unfoldable pub not_rolled_back : Option ℤ → SignedHead → Result Error (Unit {0})
not_rolled_back none head = ok tt
not_rolled_back (some highest_seen) head =
    guard (not (ltb_ℤ (sequence head) highest_seen)) (rollback highest_seen (sequence head))

module _ {D : Type 0} (net : Mainline D) where
  -- A `HeadSigner` is its seed.
  unfoldable pub sign : Bytes → InfoHashV1 → ℤ → Result Error SignedHead
  sign seed info_hash sequence = do
    guard (ltb_ℤ (pos 0) sequence) (invalid_sequence sequence)
    from_mutable_item
        (net.new_item seed (encode_bep46_value info_hash) sequence (some dataset_head_salt))

  unfoldable pub resolve : D → Bytes → Option ℤ → Result Error (Option SignedHead)
  resolve d publisher highest_seen =
      elim (net.get_mutable_most_recent d publisher (some dataset_head_salt)) [
        | none ↦ ok none
        | some item ↦
            from_mutable_item item >>= λ head. not_rolled_back highest_seen head >> ok (some head)
      ]

  -- What `publish_next` decides before it stores: the head, and the sequence to swap.
  unfoldable pub prepare : D → Bytes → InfoHashV1 → Option ℤ → Result Error (SignedHead × Option ℤ)
  prepare d seed info_hash expected_previous = do
    current ← resolve d (net.verifying_key seed) none
    guard (same_sequence (sequence_of current) expected_previous)
        (concurrent_update expected_previous (sequence_of current))
    next ← next_sequence (sequence_of current)
    head ← sign seed info_hash next
    ok (head, sequence_of current)

  unfoldable pub publish_next : D → Bytes → InfoHashV1 → Option ℤ → D × Result Error SignedHead
  publish_next d seed info_hash expected_previous =
      elim (prepare d seed info_hash expected_previous) [
        | err e ↦ (d, err e)
        | ok (head, actual) ↦
            let (d', stored) = net.put_mutable d head.item actual in
            (d', elim stored [ ok _ ↦ ok head | err _ ↦ err dht ])
      ]

  unfoldable pub reannounce : D → SignedHead → D × Result Error (Unit {0})
  reannounce d head =
      let (d', stored) = net.put_mutable d head.item none in
      (d', elim stored [ ok _ ↦ ok tt | err _ ↦ err dht ])
