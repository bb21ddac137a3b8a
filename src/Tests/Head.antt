-- ===== src/Tests/Head.antt =====
-- The theorems on heads in the DHT, with a network that holds one item.
use pubky_swarm.Base.Bytes.{bytes_eq, starts_with}
use pubky_swarm.Head.{
  bep46_value_prefix, from_mutable_item, next_sequence, not_rolled_back, prepare, same_sequence,
  sign,
}
use pubky_swarm.Base.{◌≡◌, ◌↔◌, refl, Option, none, some, length, replicate}
use pubky_swarm.Base.Bytes.{Bytes}
use pubky_swarm.Base.Int.{ℤ, pos}
use pubky_swarm.Base.Result.{ok}
use pubky_swarm.Head.{
  MutableItem, SignedHead, Mainline, dataset_head_salt, encode_bep46_value, decode_bep46_value,
  resolve, publish_next, sequence_of,
}
use pubky_swarm.Head.Value.{decode_bep46_value_iff}
use pubky_swarm.Head.Client.{
  IsVerified, NotBelow, resolve-IsVerified, SignLaws, IsNext, publish_next-eq-ok,
}
use pubky_swarm.Tests.Sample.{info_hash}

abbrev item_of : Bytes → Bytes → ℤ → Option Bytes → MutableItem
item_of seed value n salt = record { key = seed; value = value; seq = n; salt = salt }

-- A network that holds at most one item and takes every store.
abbrev net : Mainline (Option MutableItem)
net = record {
  new_item = item_of;
  verifying_key = λ seed. seed;
  get_mutable_most_recent = λ d _ _. d;
  put_mutable = λ _ item _. (some item, ok tt);
}

net-SignLaws : SignLaws net
net-SignLaws = record {
  signed_value = λ seed value n salt. refl;
  signed_seq = λ seed value n salt. refl;
  signed_key = λ seed value n salt. refl;
}

abbrev seed : Bytes
seed = replicate 32 1

abbrev item_at : ℤ → MutableItem
item_at n = item_of seed (encode_bep46_value info_hash) n (some dataset_head_salt)

abbrev head_at : ℤ → SignedHead
head_at n = record { item = item_at n; info_hash = info_hash }

decode_bep46_value_iff_example :
    (decode_bep46_value (encode_bep46_value info_hash) ≡ ok info_hash) ↔ (
      (encode_bep46_value info_hash ≡ encode_bep46_value info_hash) × (length info_hash.bytes ≡ 20))
decode_bep46_value_iff_example = decode_bep46_value_iff (encode_bep46_value info_hash) info_hash

resolved : resolve net (some (item_at (pos 4))) seed (some (pos 3)) ≡ ok (some (head_at (pos 4)))
unfolding resolve from_mutable_item bytes_eq dataset_head_salt decode_bep46_value encode_bep46_value
    bep46_value_prefix starts_with not_rolled_back
resolved = refl

resolve-IsVerified_example :
    (net.get_mutable_most_recent (some (item_at (pos 4))) seed (some dataset_head_salt)
      ≡ some (item_at (pos 4)))
    × IsVerified (head_at (pos 4))
    × NotBelow (some (pos 3)) (head_at (pos 4))
resolve-IsVerified_example =
    resolve-IsVerified net (some (item_at (pos 4))) seed (some (pos 3)) (head_at (pos 4)) resolved

published_next :
    (publish_next net (some (item_at (pos 4))) seed info_hash (some (pos 4))).1
    ≡ ok (head_at (pos 5))
unfolding publish_next prepare resolve from_mutable_item bytes_eq dataset_head_salt
    decode_bep46_value encode_bep46_value bep46_value_prefix starts_with not_rolled_back
    same_sequence next_sequence sign
published_next = refl

publish_next-eq-ok_example :
    IsNext net seed info_hash (some (pos 4)) (head_at (pos 5))
    × ((current : Option SignedHead) × (resolve net (some (item_at (pos 4))) seed none ≡ ok current)
        × (sequence_of current ≡ some (pos 4)))
    × (net.put_mutable (some (item_at (pos 4))) (item_at (pos 5)) (some (pos 4))
        ≡ ((publish_next net (some (item_at (pos 4))) seed info_hash (some (pos 4))).0, ok tt))
publish_next-eq-ok_example =
    publish_next-eq-ok net net-SignLaws (some (item_at (pos 4))) seed info_hash (some (pos 4))
      (head_at (pos 5)) published_next
