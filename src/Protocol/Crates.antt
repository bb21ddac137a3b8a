-- ===== src/Protocol/Crates.antt =====
-- What the protocol crate calls of other crates: `hex`, `blake3`, `url` and the Ed25519 keys of
-- `pubky`. The functions are a parameter of the model; the laws are named hypotheses.
use pubky_swarm.Base.{ℕ, ◌*◌, ◌≡◌, ◌&&◌, ◌||◌, Bool, true, Option, some, List, leb, length, all}
use pubky_swarm.Base.Bytes.{Bytes, IsBytes, is_digit}

-- What the program reads of a parsed `url::Url`.
pub record Url : Type 0 where
  pub scheme : Bytes
  pub username : Bytes
  pub password : Option Bytes
  pub fragment : Option Bytes
  pub query_keys : List Bytes
  pub cannot_be_a_base : Bool
  pub text : Bytes

pub record Crates : Type 0 where
  pub hex_encode : Bytes → Bytes
  -- `none` is any error of `hex::decode`.
  pub hex_decode : Bytes → Option Bytes
  -- `blake3::hash(b).as_bytes()`.
  pub blake3 : Bytes → Bytes
  -- Whether 32 bytes are an Ed25519 public key.
  pub is_key : Bytes → Bool
  -- The z-base32 text of a key, and its parser.
  pub key_text : Bytes → Bytes
  pub key_of_text : Bytes → Option Bytes
  pub parse_url : Bytes → Option Url

abbrev pub is_lower_hex : ℕ → Bool
is_lower_hex b = is_digit b || (leb b'a' b && leb b b'f')

-- `hex::encode` writes two lowercase digits for each byte, and `hex::decode` reads them back.
pub record HexLaws (x : Crates) : Type 0 where
  pub length_encode : (b : Bytes) → length (x.hex_encode b) ≡ 2 * length b
  pub encode_lower : (b : Bytes) → all is_lower_hex (x.hex_encode b) ≡ true
  pub decode_encode : (b : Bytes) → IsBytes b → x.hex_decode (x.hex_encode b) ≡ some b
  pub encode_decode :
      (s b : Bytes) → all is_lower_hex s ≡ true → x.hex_decode s ≡ some b → x.hex_encode b ≡ s
  pub decode_IsBytes : (s b : Bytes) → x.hex_decode s ≡ some b → IsBytes b

-- A BLAKE3 digest has 32 bytes.
pub record HashLaws (x : Crates) : Type 0 where
  pub length_hash : (b : Bytes) → length (x.blake3 b) ≡ 32
  pub hash_IsBytes : (b : Bytes) → IsBytes (x.blake3 b)
