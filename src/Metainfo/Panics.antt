-- ===== src/Metainfo/Panics.antt =====
-- When `is_windows_reserved_name` panics: it slices the stem at byte 3, which may stand inside a
-- character.
use pubky_swarm.Base.{
  ℕ, ◌≤◌, ◌<◌, ◌≡◌, ◌↔◌, refl, sym, ap, ◌∙◌, inl, inr, true, false, ◌&&◌, none, some, [], ◌∷◌, ltb,
  leb, ◌==◌, length, map, any, get_elem?, arith, Bool-cases, Option-cases,
}
use pubky_swarm.Base.Bytes.{Bytes, codes, bytes_eq_iff, upper_byte}
use pubky_swarm.Base.Paths.{first_piece}
use pubky_swarm.Metainfo.{eq_ignore_ascii_case, first_three, is_serial, is_windows_reserved_name}

-- Four bytes, of which the last one continues a character.
abbrev pub SplitsCharacter : Bytes → Type 0
SplitsCharacter stem =
    (length stem ≡ 4) × ((b : ℕ) × (get_elem? stem 3 ≡ some b) × (128 ≤ b) × (b < 192))

first_three-none : (stem : Bytes) → length stem ≡ 4 → first_three stem ≡ none → SplitsCharacter stem
unfolding first_three
first_three-none [] h e = ground arith
first_three-none (a ∷ []) h e = ground arith
first_three-none (a ∷ b ∷ []) h e = ground arith
first_three-none (a ∷ b ∷ c ∷ []) h e = ground arith
first_three-none (a ∷ b ∷ c ∷ d ∷ s) h e = (h, (d, refl, ground arith, ground arith))

none-first_three : (stem : Bytes) → SplitsCharacter stem → first_three stem ≡ none
unfolding first_three
none-first_three stem (h, (b, e, k, l)) =
    let inside : (leb 128 b && ltb b 192) ≡ true = ground arith in rw (first_three, e, inside)

is_serial-none : (stem prefix : Bytes) → is_serial stem prefix ≡ none → SplitsCharacter stem
unfolding is_serial
is_serial-none stem prefix e = elim (Bool-cases (length stem == 4)) [
  | inr k ↦ cc (rw (is_serial, k) at e)
  | inl k ↦ elim (Option-cases (first_three stem)) [
    | inl l ↦ first_three-none stem (ground arith) l
    | inr (head, l) ↦ cc (rw (is_serial, k, l) at e)
  ]
]

none-is_serial : (stem prefix : Bytes) → SplitsCharacter stem → is_serial stem prefix ≡ none
unfolding is_serial
none-is_serial stem prefix h = rw (is_serial, h.0, none-first_three stem h)

length-map_upper : (s : Bytes) → length (map upper_byte s) ≡ length s
length-map_upper [] = refl
length-map_upper (c ∷ s) = omega (arith, length-map_upper s)

same_length : (a b : Bytes) → eq_ignore_ascii_case a b ≡ true → length a ≡ length b
unfolding eq_ignore_ascii_case
same_length a b h =
    sym (length-map_upper a)
    ∙ (ap length ((bytes_eq_iff (map upper_byte a) (map upper_byte b)).0 h) ∙ length-map_upper b)

other_length : (a b : Bytes) → length a ≡ 4 → length b ≡ 3 → eq_ignore_ascii_case a b ≡ false
other_length a b h k = elim (Bool-cases (eq_ignore_ascii_case a b)) [
  | inl l ↦ ground (arith, same_length a b l)
  | inr l ↦ l
]

panicked :
    (component : Bytes)
    → is_windows_reserved_name component ≡ none
    → SplitsCharacter (first_piece b'.' component)
unfolding is_windows_reserved_name
panicked component e =
    elim (Bool-cases (
      any (eq_ignore_ascii_case (first_piece b'.' component))
        (codes "CON" ∷ codes "PRN" ∷ codes "AUX" ∷ codes "NUL" ∷ []))) [
          | inl k ↦ cc (rw (is_windows_reserved_name, k) at e)
          | inr k ↦ elim (Option-cases (is_serial (first_piece b'.' component) (codes "COM"))) [
            | inl l ↦ is_serial-none (first_piece b'.' component) (codes "COM") l
            | inr (true, l) ↦ cc (rw (is_windows_reserved_name, k, l) at e)
            | inr (false, l) ↦
                is_serial-none (first_piece b'.' component) (codes "LPT")
                  (rw (is_windows_reserved_name, k, l) at e)
          ]
        ]

panics :
    (component : Bytes)
    → SplitsCharacter (first_piece b'.' component)
    → is_windows_reserved_name component ≡ none
unfolding is_windows_reserved_name
panics component h = rw (
  is_windows_reserved_name,
  other_length (first_piece b'.' component) (codes "CON") h.0 refl,
  other_length (first_piece b'.' component) (codes "PRN") h.0 refl,
  other_length (first_piece b'.' component) (codes "AUX") h.0 refl,
  other_length (first_piece b'.' component) (codes "NUL") h.0 refl,
  none-is_serial (first_piece b'.' component) (codes "COM") h,
)

-- `is_windows_reserved_name` panics exactly when what stands before the first dot of the component
-- has four bytes, the last of which is inside a character.
pub is_windows_reserved_name_panics_iff :
    (component : Bytes)
    → (is_windows_reserved_name component ≡ none) ↔ SplitsCharacter (first_piece b'.' component)
is_windows_reserved_name_panics_iff component = (panicked component, panics component)
