-- ===== src/Gateway.antt =====
-- crates/stream-gateway/src/lib.rs: byte ranges and the handler of one file.
pub mod Range
pub mod Asked
pub mod Handler
pub mod Served
use Prim.Native.String.{String}
use Prim.Native.Nat
use pubky_swarm.Base.{
  ℕ, zero, suc, ◌+◌, ◌*◌, ◌^◌, ◌-◌, ◌≡◌, refl, Bool, true, false, not, ◌||◌, ◌&&◌, Option, none,
  some, List, [], ◌∷◌, ◌++◌, ltb, leb, ◌==◌, if◌then◌else◌, get_elem?,
}
use pubky_swarm.Base.Bytes.{
  Bytes, codes, u64_max, strip_prefix, split_once, contains, is_digit, bytes_eq,
}
use pubky_swarm.Base.Result.{Result, ok, err, ◌>>=◌, ◌>>◌, guard, ok_or}

-- The reasons of an unsatisfiable range, and the messages of the other replies.
pub data Reason : Type 0 where
  empty_file : Reason
  invalid_header : Reason
  only_bytes : Reason
  multiple_ranges : Reason
  malformed : Reason
  invalid_suffix : Reason
  zero_suffix : Reason
  invalid_start : Reason
  invalid_end : Reason
  outside_file : Reason

pub record ByteRange : Type 0 where
  pub start : ℕ
  pub end : ℕ
  pub partial : Bool

-- The digits of `str::parse::<u64>`, with the number read so far; a number that does not fit is
-- refused.
unfoldable pub parse_digits : ℕ → Bytes → Option ℕ
parse_digits n [] = some n
parse_digits n (c ∷ cs) =
    let rest = parse_digits (n * 10 + (c - b'0')) cs in
    if is_digit c && leb (n * 10 + (c - b'0')) u64_max then rest else none

unfoldable pub parse_some_digits : Bytes → Option ℕ
parse_some_digits [] = none
parse_some_digits (c ∷ cs) = parse_digits 0 (c ∷ cs)

-- `str::parse::<u64>`, which takes a leading plus.
unfoldable pub parse_u64 : Bytes → Option ℕ
parse_u64 [] = none
parse_u64 (c ∷ cs) = if c == b'+' then parse_some_digits cs else parse_some_digits (c ∷ cs)

min : ℕ → ℕ → ℕ
min a b = if leb a b then a else b

-- The two ends that a header names, before they are tested.
unfoldable pub named_ends : ℕ → Bytes → Bytes → Result Reason (ℕ × ℕ)
unfolding min
named_ends file_length [] end = do
  suffix ← ok_or (parse_u64 end) invalid_suffix
  guard (not (suffix == 0)) zero_suffix
  ok (file_length - suffix, file_length - 1)
named_ends file_length (c ∷ cs) [] = do
  start ← ok_or (parse_u64 (c ∷ cs)) invalid_start
  ok (start, min (file_length - 1) (file_length - 1))
named_ends file_length (c ∷ cs) (d ∷ ds) = do
  start ← ok_or (parse_u64 (c ∷ cs)) invalid_start
  end ← ok_or (parse_u64 (d ∷ ds)) invalid_end
  ok (start, min end (file_length - 1))

unfoldable pub check_ends : ℕ → ℕ × ℕ → Result Reason ByteRange
check_ends file_length (start, end) =
    if leb file_length start || ltb end start
    then err outside_file
    else ok (record { start = start; end = end; partial = true })

-- The header's text, which `to_str` gives when it is visible ASCII.
unfoldable pub parse_value : ℕ → Bytes → Result Reason ByteRange
parse_value file_length text = do
  value ← ok_or (strip_prefix (codes "bytes=") text) only_bytes
  guard (not (contains b',' value)) multiple_ranges
  (start, end) ← ok_or (split_once b'-' value) malformed
  ends ← named_ends file_length start end
  check_ends file_length ends

-- `HeaderValue::to_str`, of the `http` crate.
abbrev pub ToStr : Type 0
ToStr = Bytes → Option Bytes

unfoldable pub parse_header : ToStr → Option Bytes → ℕ → Result Reason ByteRange
parse_header to_str none file_length =
    ok (record { start = 0; end = file_length - 1; partial = false })
parse_header to_str (some header) file_length =
    ok_or (to_str header) invalid_header >>= λ text. parse_value file_length text

unfoldable pub parse_range : ToStr → Option Bytes → ℕ → Result Reason ByteRange
parse_range to_str header file_length =
    if file_length == 0 then err empty_file else parse_header to_str header file_length
