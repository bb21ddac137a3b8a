-- ===== src/Gateway/Range.antt =====
-- What a `Range` header asks for and what `parse_range` makes of it.
use pubky_swarm.Base.{
  ℕ, zero, suc, ◌+◌, ◌*◌, ◌-◌, ◌<◌, ◌≤◌, ◌≡◌, refl, ◌∙◌, ◌↔◌, Bool, true, false, not, Option, none,
  some, [], ◌∷◌, ◌++◌, leb, ◌==◌, if◌then◌else◌, arith,
}
use pubky_swarm.Base.Bytes.{
  Bytes, codes, strip_prefix, split_once, contains, strip_prefix-append, strip_prefix-eq-some,
}
use pubky_swarm.Base.Result.{ok, ◌>>=◌, ok_or, >>=-eq-ok, guard-eq-ok}
use pubky_swarm.Base.Split.{contains-append, split_once-append, split_once-eq-some}
use pubky_swarm.Gateway.{
  ByteRange, ToStr, parse_digits, parse_some_digits, parse_u64, named_ends, check_ends, parse_value,
  parse_header, parse_range, Reason, invalid_header,
}

abbrev pub is_some : Option Bytes → Bool
is_some none = false
is_some (some _) = true

-- Digits are neither commas nor dashes.
parse_digits_plain :
    (c n m : ℕ) (s : Bytes) → c < 48 → parse_digits n s ≡ some m → contains c s ≡ false
unfolding parse_digits contains
parse_digits_plain c n m [] h e = refl
parse_digits_plain c n m (d ∷ s) h e =
    ground (arith, parse_digits_plain c (n * 10 + (d - b'0')) m s)

parse_u64_plain :
    (c m : ℕ) (s : Bytes) → c < 48 → 43 < c → parse_u64 s ≡ some m → contains c s ≡ false
unfolding parse_u64 parse_some_digits contains
parse_u64_plain c m [] h k e = cc
parse_u64_plain c m (d ∷ []) h k e = ground (arith, parse_digits_plain c 0 m (d ∷ []))
parse_u64_plain c m (d ∷ d' ∷ s) h k e =
    ground (arith, parse_digits_plain c 0 m (d ∷ d' ∷ s), parse_digits_plain c 0 m (d' ∷ s))

-- The text of a header and the first and last byte it asks for of a file of `n` bytes.
pub data Asks (n : ℕ) : Bytes → ℕ → ℕ → Type 0 where
  closed :
      (s t : Bytes) (a b : ℕ)
      → parse_u64 s ≡ some a
      → parse_u64 t ≡ some b
      → Asks n (codes "bytes=" ++ (s ++ b'-' ∷ t)) a b
  open_ended :
      (s : Bytes) (a : ℕ)
      → parse_u64 s ≡ some a
      → Asks n (codes "bytes=" ++ (s ++ b'-' ∷ [])) a (n - 1)
  suffix :
      (t : Bytes) (k : ℕ)
      → parse_u64 t ≡ some (suc k)
      → Asks n (codes "bytes=" ++ (b'-' ∷ t)) (n - suc k) (n - 1)

-- The range that `parse_range` gives for what is asked: the last byte is cut to the file.
pub record Granted (n a b : ℕ) (range : ByteRange) : Type 0 where
  pub start_is : range.start ≡ a
  pub end_is : range.end ≡ (if leb b (n - 1) then b else n - 1)
  pub is_partial : range.partial ≡ true
  pub inside : a < n
  pub ordered : a ≤ range.end

check_ends-eq-ok :
    (n a b : ℕ) (r : ByteRange)
    → check_ends n (a, b) ≡ ok r
    → (r.start ≡ a) × (r.end ≡ b) × (r.partial ≡ true) × (a < n) × (a ≤ b)
unfolding check_ends
check_ends-eq-ok n a b r e = ground arith

check_ends-ok :
    (n a b : ℕ) (r : ByteRange)
    → r.start ≡ a
    → r.end ≡ b
    → r.partial ≡ true
    → a < n
    → a ≤ b
    → check_ends n (a, b) ≡ ok r
unfolding check_ends
check_ends-ok n a b r p q o l m = ground arith

ok_or-eq-ok : {A : Type 0} (o : Option A) (e : Reason) (a : A) → ok_or o e ≡ ok a → o ≡ some a
ok_or-eq-ok none e a h = cc
ok_or-eq-ok (some b) e a h = ground arith

suffix_asked :
    (n k : ℕ) (t : Bytes)
    → not (k == 0) ≡ true
    → parse_u64 t ≡ some k
    → Asks n (codes "bytes=" ++ (b'-' ∷ t)) (n - k) (n - 1)
suffix_asked n zero t h p = cc
suffix_asked n (suc k) t h p = suffix t k p

-- The two ends that `named_ends` reads are those asked for, the last one cut to the file.
named_ends-Asks :
    (n : ℕ) (s t : Bytes) (a b : ℕ)
    → named_ends n s t ≡ ok (a, b)
    → (b' : ℕ) × Asks n (codes "bytes=" ++ (s ++ b'-' ∷ t)) a b'
      × (b ≡ (if leb b' (n - 1) then b' else n - 1))
unfolding named_ends
named_ends-Asks n [] t a b e =
    let (k, e₁, k₁) = >>=-eq-ok (ok_or (parse_u64 t) _) _ e in
    let (h, k₂) = guard-eq-ok (not (k == 0)) _ _ k₁ in
    let first : n - k ≡ a = ground arith in
    let last : n - 1 ≡ b = ground arith in
    (
      n - 1,
      rw (← first) (suffix_asked n k t h (ok_or-eq-ok (parse_u64 t) _ k e₁)),
      rw (← last) ground arith,
    )
named_ends-Asks n (c ∷ s) [] a b e =
    let (k, e₁, k₁) = >>=-eq-ok (ok_or (parse_u64 (c ∷ s)) _) _ e in
    let first : k ≡ a = ground arith in
    (
      n - 1,
      rw (← first) (open_ended (c ∷ s) k (ok_or-eq-ok (parse_u64 (c ∷ s)) _ k e₁)),
      ground arith,
    )
named_ends-Asks n (c ∷ s) (d ∷ t) a b e =
    let (k, e₁, k₁) = >>=-eq-ok (ok_or (parse_u64 (c ∷ s)) _) _ e in
    let (l, e₂, k₂) = >>=-eq-ok (ok_or (parse_u64 (d ∷ t)) _) _ k₁ in
    let first : k ≡ a = ground arith in
    (
      l,
      rw (← first) (
          closed (c ∷ s) (d ∷ t) k l (ok_or-eq-ok (parse_u64 (c ∷ s)) _ k e₁)
            (ok_or-eq-ok (parse_u64 (d ∷ t)) _ l e₂)),
      ground arith,
    )

granted :
    (n : ℕ) (text v s t : Bytes) (a b : ℕ) (r : ByteRange)
    → text ≡ codes "bytes=" ++ v
    → v ≡ s ++ b'-' ∷ t
    → named_ends n s t ≡ ok (a, b)
    → check_ends n (a, b) ≡ ok r
    → (a : ℕ) × (b : ℕ) × Asks n text a b × Granted n a b r
granted n text v s t a b r text_is v_is e k =
    let (b', asks, cut) = named_ends-Asks n s t a b e in
    let (p, q, o, l, m) = check_ends-eq-ok n a b r k in
    (
      a,
      b',
      rw (text_is, v_is) asks,
      record { start_is = p; end_is = q ∙ cut; is_partial = o; inside = l; ordered = rw q m },
    )

parse_value-Asks :
    (n : ℕ) (text : Bytes) (r : ByteRange)
    → parse_value n text ≡ ok r
    → (a : ℕ) × (b : ℕ) × Asks n text a b × Granted n a b r
unfolding parse_value
parse_value-Asks n text r e =
    let (v, e₁, k₁) = >>=-eq-ok (ok_or (strip_prefix (codes "bytes=") text) _) _ e in
    let (_, k₂) = guard-eq-ok (not (contains b',' v)) _ _ k₁ in
    let ((s, t), e₃, k₃) = >>=-eq-ok (ok_or (split_once b'-' v) _) _ k₂ in
    let ((a, b), e₄, k₄) = >>=-eq-ok (named_ends n s t) _ k₃ in
    granted n text v s t a b r
      (strip_prefix-eq-some (codes "bytes=") text v
        (ok_or-eq-ok (strip_prefix (codes "bytes=") text) _ v e₁))
      (split_once-eq-some b'-' v s t (ok_or-eq-ok (split_once b'-' v) _ (s, t) e₃)) e₄ k₄

-- The parts of a text without commas, and without dashes in its first part.
parse_value-parts :
    (n : ℕ) (s t : Bytes)
    → contains b',' s ≡ false
    → contains b'-' s ≡ false
    → contains b',' t ≡ false
    → parse_value n (codes "bytes=" ++ (s ++ b'-' ∷ t)) ≡ (named_ends n s t >>= check_ends n)
unfolding contains parse_value named_ends
parse_value-parts n s t h k l = rw (
  parse_value,
  strip_prefix-append (codes "bytes=") (s ++ b'-' ∷ t),
  contains-append b',' s (b'-' ∷ t),
  h,
  l,
  split_once-append b'-' s t k,
)

named_ends-closed :
    (n a b : ℕ) (s t : Bytes)
    → parse_u64 s ≡ some a
    → parse_u64 t ≡ some b
    → named_ends n s t ≡ ok (a, if leb b (n - 1) then b else n - 1)
unfolding named_ends parse_u64
named_ends-closed n a b [] t h k = cc
named_ends-closed n a b (c ∷ s) [] h k = cc
named_ends-closed n a b (c ∷ s) (d ∷ t) h k = rw (named_ends, h, k)

named_ends-open_ended :
    (n a : ℕ) (s : Bytes)
    → parse_u64 s ≡ some a
    → named_ends n s [] ≡ ok (a, if leb (n - 1) (n - 1) then n - 1 else n - 1)
unfolding named_ends parse_u64
named_ends-open_ended n a [] h = cc
named_ends-open_ended n a (c ∷ s) h = rw (named_ends, h)

cut_last : (m : ℕ) → (if leb m m then m else m) ≡ m
cut_last m = ground arith

named_ends-suffix :
    (n k : ℕ) (t : Bytes) → parse_u64 t ≡ some (suc k) → named_ends n [] t ≡ ok (n - suc k, n - 1)
unfolding named_ends
named_ends-suffix n k t h = rw (named_ends, h) (ground arith)

-- A range that is asked for is granted when it lies in the file.
Asks-parse_value :
    (n : ℕ) (text : Bytes) (a b : ℕ) (r : ByteRange)
    → Asks n text a b
    → Granted n a b r
    → parse_value n text ≡ ok r
unfolding contains
Asks-parse_value n text a b r (closed s t a' b' h k) g =
    rw
      (
        parse_value-parts n s t (parse_u64_plain b',' a' s (omega arith) (omega arith) h)
            (parse_u64_plain b'-' a' s (omega arith) (omega arith) h)
            (parse_u64_plain b',' b' t (omega arith) (omega arith) k),
        named_ends-closed n a' b' s t h k,
      )
      (check_ends-ok n a' _ r g.start_is g.end_is g.is_partial g.inside (rw (← g.end_is) g.ordered))
Asks-parse_value n text a b r (open_ended s a' h) g =
    rw
      (
        parse_value-parts n s [] (parse_u64_plain b',' a' s (omega arith) (omega arith) h)
            (parse_u64_plain b'-' a' s (omega arith) (omega arith) h) refl,
        named_ends-open_ended n a' s h,
      )
      (check_ends-ok n a' _ r g.start_is g.end_is g.is_partial g.inside (rw (← g.end_is) g.ordered))
Asks-parse_value n text a b r (suffix t k h) g =
    let end_is : r.end ≡ n - 1 = g.end_is ∙ cut_last (n - 1) in
    rw
      (
        parse_value-parts n [] t refl refl
            (parse_u64_plain b',' (suc k) t (omega arith) (omega arith) h),
        named_ends-suffix n k t h,
      )
      (check_ends-ok n (n - suc k) (n - 1) r g.start_is end_is g.is_partial g.inside
        (rw (← end_is) g.ordered))

-- A header's text gives a range exactly when it has one of the three forms `bytes=a-b`, `bytes=a-`
-- and `bytes=-k`, with k at least 1, and the first byte it asks for is inside the file and not
-- behind the last one, which is cut to the end of the file; the range is the one asked for.
pub parse_value_iff :
    (n : ℕ) (text : Bytes) (r : ByteRange)
    → (parse_value n text ≡ ok r) ↔ ((a : ℕ) × (b : ℕ) × Asks n text a b × Granted n a b r)
parse_value_iff n text r =
    (parse_value-Asks n text r, λ (a, b, asks, g). Asks-parse_value n text a b r asks g)

-- A range over the whole or a part of a file: its ends are in order and inside the file.
abbrev pub Within : ℕ → ByteRange → Type 0
Within n r = (r.start ≤ r.end) × (r.end < n)

within : (n a b : ℕ) (r : ByteRange) → 0 < n → Granted n a b r → Within n r
within n a b r h g = ground (arith, g.start_is, g.end_is, g.inside, g.ordered)

-- A range that `parse_range` returns is never empty and lies inside the file, and it is a partial
-- one exactly when there is a header.
pub parse_range-Within :
    (to_str : ToStr) (header : Option Bytes) (n : ℕ) (r : ByteRange)
    → parse_range to_str header n ≡ ok r
    → Within n r × (r.partial ≡ is_some header)
unfolding parse_range parse_header
parse_range-Within to_str none n r e = ground arith
parse_range-Within to_str (some header) n r e =
    let (nonempty, k) : (n == 0 ≡ false)
        × ((ok_or (to_str header) invalid_header >>= λ text. parse_value n text) ≡ ok r) =
      ground arith in
    let (text, _, k₁) = >>=-eq-ok (ok_or (to_str header) invalid_header) _ k in
    let (a, b, _, g) = parse_value-Asks n text r k₁ in
    (within n a b r (ground arith) g, g.is_partial)
