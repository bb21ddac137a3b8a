-- ===== src/Gateway/Asked.antt =====
-- The range that a request asks for, with a header or without one.
use pubky_swarm.Base.{ℕ, ◌-◌, ◌≡◌, false, Option, none, some, arith}
use pubky_swarm.Base.Bytes.{Bytes}
use pubky_swarm.Base.Result.{ok, ◌>>=◌, ok_or, >>=-eq-ok}
use pubky_swarm.Gateway.{
  ByteRange, ToStr, parse_value, parse_header, parse_range, Reason, invalid_header,
}
use pubky_swarm.Gateway.Range.{Asks, Granted, parse_value_iff}

-- The whole file without a header; with one, what its text asks for, cut to the file.
abbrev pub IsAsked : ToStr → Option Bytes → ℕ → ByteRange → Type 0
IsAsked to_str none n range = (range.start ≡ 0) × (range.end ≡ n - 1) × (range.partial ≡ false)
IsAsked to_str (some header) n range =
    (text : Bytes) × (to_str header ≡ some text)
    × ((a : ℕ) × (b : ℕ) × Asks n text a b × Granted n a b range)

ok_or-eq-ok :
    (found : Option Bytes) (reason : Reason) (text : Bytes)
    → ok_or found reason ≡ ok text
    → found ≡ some text
ok_or-eq-ok (some t) reason text h = ground arith
ok_or-eq-ok none reason text h = cc

pub parse_range-IsAsked :
    (to_str : ToStr) (header : Option Bytes) (n : ℕ) (range : ByteRange)
    → parse_range to_str header n ≡ ok range
    → IsAsked to_str header n range
unfolding parse_range parse_header
parse_range-IsAsked to_str none n range e = ground arith
parse_range-IsAsked to_str (some header) n range e =
    let k : (ok_or (to_str header) invalid_header >>= λ text. parse_value n text) ≡ ok range =
      ground arith in
    let (text, read, k₁) = >>=-eq-ok (ok_or (to_str header) invalid_header) _ k in
    (
      text,
      ok_or-eq-ok (to_str header) invalid_header text read,
      (parse_value_iff n text range).0 k₁,
    )
