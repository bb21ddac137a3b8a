-- ===== src/Tests/Hex.antt =====
-- Hexadecimal digits in place of the `hex` crate, with the laws that the development relies on.
use pubky_swarm.Base.{
  ℕ, ◌+◌, ◌-◌, ◌*◌, ◌/◌, ◌%◌, ◌<◌, ◌≡◌, refl, Bool, true, false, ◌&&◌, Option, none, some, [], ◌∷◌,
  ltb, leb, if◌then◌else◌, length, all, arith,
}
use pubky_swarm.Base.Bytes.{Bytes, IsBytes}
use pubky_swarm.Protocol.Crates.{Crates, HexLaws, is_lower_hex, Url}
use pubky_swarm.Base.{take, replicate, ◌++◌}
use pubky_swarm.Base.Bytes.{codes}

unfoldable pub digit : ℕ → ℕ
digit n = if ltb n 10 then 48 + n else 87 + n

unfoldable pub value : ℕ → Option ℕ
value c =
    if leb 48 c && leb c 57
    then some (c - 48)
    else if leb 97 c && leb c 102
    then some (c - 87)
    else if leb 65 c && leb c 70
    then some (c - 55)
    else none

unfoldable pub encode : Bytes → Bytes
encode [] = []
encode (b ∷ bs) = digit (b / 16 % 16) ∷ digit (b % 16) ∷ encode bs

pair : Option ℕ → Option ℕ → Option Bytes → Option Bytes
pair (some a) (some b) (some bs) = some ((16 * a + b) ∷ bs)
pair _ _ _ = none

unfoldable pub decode : Bytes → Option Bytes
unfolding pair
decode [] = some []
decode (c ∷ []) = none
decode (c ∷ d ∷ s) = pair (value c) (value d) (decode s)

length_encode : (b : Bytes) → length (encode b) ≡ 2 * length b
unfolding encode
length_encode [] = refl
length_encode (b ∷ bs) = omega (arith, length_encode bs)

digit_lower : (n : ℕ) → n < 16 → is_lower_hex (digit n) ≡ true
unfolding digit
digit_lower n h = ground arith

encode_lower : (b : Bytes) → all is_lower_hex (encode b) ≡ true
unfolding encode
encode_lower [] = refl
encode_lower (b ∷ bs) =
    rw (digit_lower (b / 16 % 16) (omega arith), digit_lower (b % 16) (omega arith))
      (encode_lower bs)

value-digit : (n : ℕ) → n < 16 → value (digit n) ≡ some n
unfolding value digit
value-digit n h = ground arith

join_nibbles : (b : ℕ) → b < 256 → 16 * (b / 16 % 16) + b % 16 ≡ b
join_nibbles b h = omega arith

decode-encode : (b : Bytes) → IsBytes b → decode (encode b) ≡ some b
unfolding decode encode
decode-encode [] h = refl
decode-encode (b ∷ bs) (h, hs) = rw (
  value-digit (b / 16 % 16) (omega arith),
  value-digit (b % 16) (omega arith),
  decode-encode bs hs,
  join_nibbles b h,
)

digit-value : (c n : ℕ) → is_lower_hex c ≡ true → value c ≡ some n → (digit n ≡ c) × (n < 16)
unfolding digit value
digit-value c n h e = (ground arith, ground arith)

value_small : (c n : ℕ) → value c ≡ some n → n < 16
unfolding value
value_small c n e = ground arith

pair-eq-some :
    (p q : Option ℕ) (r : Option Bytes) (b : Bytes)
    → pair p q r ≡ some b
    → (m : ℕ) × (n : ℕ) × (bs : Bytes) × (p ≡ some m)
      × (q ≡ some n)
      × (r ≡ some bs)
      × ((16 * m + n) ∷ bs ≡ b)
unfolding pair
pair-eq-some none q r b e = cc
pair-eq-some (some m) none r b e = cc
pair-eq-some (some m) (some n) none b e = cc
pair-eq-some (some m) (some n) (some bs) b e = (m, n, bs, refl, refl, refl, ground arith)

high_nibble : (m n : ℕ) → m < 16 → n < 16 → (16 * m + n) / 16 % 16 ≡ m
high_nibble m n h k = omega arith

low_nibble : (m n : ℕ) → n < 16 → (16 * m + n) % 16 ≡ n
low_nibble m n k = omega arith

nothing_read : (b : Bytes) → decode [] ≡ some b → [] ≡ b
unfolding decode
nothing_read b e = ground arith

three_true : (a b c : Bool) → (a && (b && c)) ≡ true → (a ≡ true) × (b ≡ true) × (c ≡ true)
three_true a b c h = ground arith

byte_of : (m n : ℕ) → m < 16 → n < 16 → 16 * m + n < 256
byte_of m n h k = omega arith

encode-decode : (s b : Bytes) → all is_lower_hex s ≡ true → decode s ≡ some b → encode b ≡ s
unfolding decode encode
encode-decode [] b h e = rw (← nothing_read b e) refl
encode-decode (c ∷ []) b h e = cc
encode-decode (c ∷ d ∷ s) b h e =
    let (m, n, bs, e₁, e₂, e₃, same) = pair-eq-some (value c) (value d) (decode s) b e in
    let (k, l, hs) : (is_lower_hex c ≡ true)
        × (is_lower_hex d ≡ true)
        × (all is_lower_hex s ≡ true) =
      three_true (is_lower_hex c) (is_lower_hex d) (all is_lower_hex s) h in
    let (p, small) = digit-value c m k e₁ in
    let (q, small') = digit-value d n l e₂ in
    rw (← same) (
      rw (
        encode,
        high_nibble m n small small',
        low_nibble m n small',
        p,
        q,
        encode-decode s bs hs e₃,
      ))

decode-IsBytes : (s b : Bytes) → decode s ≡ some b → IsBytes b
unfolding decode
decode-IsBytes [] b e = rw (← nothing_read b e) tt
decode-IsBytes (c ∷ []) b e = cc
decode-IsBytes (c ∷ d ∷ s) b e =
    let (m, n, bs, e₁, e₂, e₃, same) = pair-eq-some (value c) (value d) (decode s) b e in
    rw (← same) (byte_of m n (value_small c m e₁) (value_small d n e₂), decode-IsBytes s bs e₃)

-- The other crates: a digest that is the first 32 bytes, keys and URLs that all parse.
abbrev pub toy_hash : Bytes → Bytes
toy_hash b = take 32 (b ++ replicate 32 0)

abbrev pub toy_url : Url
toy_url = record {
  scheme = codes "https";
  username = [];
  password = none;
  fragment = none;
  query_keys = [];
  cannot_be_a_base = false;
  text = codes "https://t/";
}

abbrev pub crates : Crates
crates = record {
  hex_encode = encode;
  hex_decode = decode;
  blake3 = toy_hash;
  is_key = λ _. true;
  key_text = λ b. b;
  key_of_text = λ b. some b;
  parse_url = λ _. some toy_url;
}

pub crates-HexLaws : HexLaws crates
crates-HexLaws = record {
  length_encode = length_encode;
  encode_lower = encode_lower;
  decode_encode = decode-encode;
  encode_decode = encode-decode;
  decode_IsBytes = decode-IsBytes;
}
