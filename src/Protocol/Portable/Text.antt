-- ===== src/Protocol/Portable/Text.antt =====
-- What `validate_text` accepts.
use Prim.Native.String.{String}
use pubky_swarm.Base.{ℕ, ◌≤◌, ◌<◌, ◌≡◌, ◌↔◌, false, ltb, arith, length, Bool-cases, inl, inr}
use pubky_swarm.Base.Bytes.{Bytes}
use pubky_swarm.Base.Result.{ok}
use pubky_swarm.Base.Utf8.{chars, is_blank, has_control}
use pubky_swarm.Protocol.Portable.{validate_text}

-- A text of so many characters, none of them a control character, and not blank when it must have
-- some.
pub record IsText (value : Bytes) (minimum maximum : ℕ) : Type 0 where
  pub long : minimum ≤ length (chars value)
  pub short : length (chars value) ≤ maximum
  pub visible : 0 < minimum → is_blank value ≡ false
  pub printable : has_control value ≡ false

validate_text-IsText :
    (field : String) (value : Bytes) (minimum maximum : ℕ)
    → validate_text field value minimum maximum ≡ ok tt
    → IsText value minimum maximum
unfolding validate_text
validate_text-IsText field value minimum maximum h = record {
  long = ground arith;
  short = ground arith;
  visible = λ k. ground arith;
  printable = ground arith;
}

IsText-validate_text :
    (field : String) (value : Bytes) (minimum maximum : ℕ)
    → IsText value minimum maximum
    → validate_text field value minimum maximum ≡ ok tt
unfolding validate_text
IsText-validate_text field value minimum maximum h = elim (Bool-cases (ltb 0 minimum)) [
  | inl k ↦ ground (arith, h.long, h.short, h.printable, h.visible (ground arith))
  | inr k ↦ ground (arith, h.long, h.short, h.printable)
]

pub validate_text_iff :
    (field : String) (value : Bytes) (minimum maximum : ℕ)
    → (validate_text field value minimum maximum ≡ ok tt) ↔ IsText value minimum maximum
validate_text_iff field value minimum maximum = (
  validate_text-IsText field value minimum maximum,
  IsText-validate_text field value minimum maximum,
)
