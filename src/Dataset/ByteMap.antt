-- ===== src/Dataset/ByteMap.antt =====
-- `BTreeMap<String, Vec<u8>>` as an association list in the order of its keys.
use pubky_swarm.Base.{
  ◌≡◌, refl, true, false, Option, none, some, List, [], ◌∷◌, arith, if◌then◌else◌, Bool-cases, inl,
  inr,
}
use pubky_swarm.Base.Bytes.{Bytes, bytes_eq, bytes_lt, bytes_eq_iff, bytes_lt-StrictOrder}

abbrev pub ByteMap : Type 0
ByteMap = List (Bytes × Bytes)

unfoldable pub get : Bytes → ByteMap → Option Bytes
get k [] = none
get k ((j, v) ∷ m) = if bytes_eq j k then some v else get k m

unfoldable pub insert : Bytes → Bytes → ByteMap → ByteMap
insert k v [] = (k, v) ∷ []
insert k v ((j, w) ∷ m) =
    if bytes_lt k j
    then (k, v) ∷ (j, w) ∷ m
    else if bytes_lt j k
    then (j, w) ∷ insert k v m
    else (k, v) ∷ m

lt_apart : (a b : Bytes) → bytes_lt a b ≡ true → bytes_eq a b ≡ false
lt_apart a b h = elim (Bool-cases (bytes_eq a b)) [
  | inl e ↦ cc (bytes_lt-StrictOrder.irrefl b, rw ((bytes_eq_iff a b).0 e) at h)
  | inr n ↦ n
]

level_eq : (a b : Bytes) → bytes_lt a b ≡ false → bytes_lt b a ≡ false → bytes_eq a b ≡ true
level_eq a b h k = (bytes_eq_iff a b).1 (bytes_lt-StrictOrder.total a b h k)

pub get-insert :
    (k j v : Bytes) (m : ByteMap)
    → get j (insert k v m) ≡ (if bytes_eq k j then some v else get j m)
unfolding get insert
get-insert k j v [] = refl
get-insert k j v ((i, w) ∷ m) = elim (Bool-cases (bytes_lt k i)) [
  | inl below ↦ rw below refl
  | inr not_below ↦ elim (Bool-cases (bytes_lt i k)) [
    | inl above ↦ ground (
      arith,
      not_below,
      above,
      lt_apart i k above,
      bytes_eq_iff i k,
      bytes_eq_iff i j,
      bytes_eq_iff k j,
      get-insert k j v m,
    )
    | inr not_above ↦ ground (
      arith,
      not_below,
      not_above,
      level_eq k i not_below not_above,
      bytes_eq_iff k i,
      bytes_eq_iff i j,
      bytes_eq_iff k j,
    )
  ]
]
