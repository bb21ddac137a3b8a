-- ===== src/Protocol/Import/Extension.antt =====
-- The extension of a path is what stands after its last dot, in the last piece.
use pubky_swarm.Base.{
  ℕ, ◌<◌, ◌≡◌, ◌↔◌, refl, sym, ap, ◌∙◌, true, false, inl, inr, none, some, [], ◌∷◌, ◌++◌, ◌==◌, map,
  append_assoc, arith, length, Bool-cases, Option-cases,
}
use pubky_swarm.Base.Bytes.{Bytes, contains, bytes_eq, lower_byte}
use pubky_swarm.Base.Split.{bytes_eq_nil_iff, contains-append}
use pubky_swarm.Protocol.Import.Sources.{rsplit_once, last_piece, extension_of}

-- `e` is the lower case of a non-empty end of the path that follows a dot and has no dot and no
-- slash.
abbrev pub HasExtension : Bytes → Bytes → Type 0
HasExtension path e =
    (front : Bytes) × (ending : Bytes) × (path ≡ front ++ b'.' ∷ ending)
    × (contains b'.' ending ≡ false)
    × (contains b'/' ending ≡ false)
    × (0 < length ending)
    × (e ≡ map lower_byte ending)

rsplit_once-free : (c : ℕ) (s : Bytes) → contains c s ≡ false → rsplit_once c s ≡ none
unfolding rsplit_once contains
rsplit_once-free c [] h = refl
rsplit_once-free c (d ∷ s) h =
    let (k, l) : (d == c ≡ false) × (contains c s ≡ false) = ground (arith, contains) in
    rw (rsplit_once, rsplit_once-free c s l, k) refl

rsplit_once-append :
    (c : ℕ) (a b : Bytes) → contains c b ≡ false → rsplit_once c (a ++ c ∷ b) ≡ some (a, b)
unfolding rsplit_once
rsplit_once-append c [] b h =
    let same : c == c ≡ true = ground arith in rw (rsplit_once, rsplit_once-free c b h, same) refl
rsplit_once-append c (d ∷ a) b h = rw (rsplit_once, rsplit_once-append c a b h) refl

rsplit_once-eq-none : (c : ℕ) (s : Bytes) → rsplit_once c s ≡ none → contains c s ≡ false
unfolding rsplit_once contains
rsplit_once-eq-none c [] h = refl
rsplit_once-eq-none c (d ∷ s) h = elim (Option-cases (rsplit_once c s)) [
  | inr ((a, b), k) ↦ cc (rw (rsplit_once, k) at h)
  | inl k ↦ elim (Bool-cases (d == c)) [
    | inl l ↦ cc (rw (rsplit_once, k, l) at h)
    | inr l ↦ let rest = rsplit_once-eq-none c s k in ground (arith, l, rest, contains)
  ]
]

rsplit_once-eq-some :
    (c : ℕ) (s a b : Bytes)
    → rsplit_once c s ≡ some (a, b)
    → (s ≡ a ++ c ∷ b) × (contains c b ≡ false)
unfolding rsplit_once
rsplit_once-eq-some c [] a b h = cc
rsplit_once-eq-some c (d ∷ s) a b h = elim (Option-cases (rsplit_once c s)) [
  | inr ((a', b'), k) ↦
      let pair_is : some (d ∷ a', b') ≡ some (a, b) = rw (rsplit_once, k) at h in
      let (rest, free) = rsplit_once-eq-some c s a' b' k in
      (ground (arith, pair_is, rest), ground (arith, pair_is, free))
  | inl k ↦ elim (Bool-cases (d == c)) [
    | inr l ↦ cc (rw (rsplit_once, k, l) at h)
    | inl l ↦
        let pair_is : some ([], s) ≡ some (a, b) = rw (rsplit_once, k, l) at h in
        let free = rsplit_once-eq-none c s k in
        (ground (arith, pair_is, l), ground (arith, pair_is, free))
  ]
]

last_piece-end :
    (c : ℕ) (s : Bytes)
    → (front : Bytes) × (s ≡ front ++ last_piece c s) × (contains c (last_piece c s) ≡ false)
unfolding last_piece
last_piece-end c s = elim (Option-cases (rsplit_once c s)) [
  | inl k ↦ ([], rw (last_piece, k) refl, rw (last_piece, k) (rsplit_once-eq-none c s k))
  | inr ((a, b), k) ↦
      let (whole, free) = rsplit_once-eq-some c s a b k in
      (
        a ++ c ∷ [],
        rw (last_piece, k) (whole ∙ sym (append_assoc a (c ∷ []) b)),
        rw (last_piece, k) free,
      )
]

last_piece-append :
    (c : ℕ) (front t : Bytes)
    → contains c t ≡ false
    → (n : Bytes) × (last_piece c (front ++ t) ≡ n ++ t)
unfolding last_piece
last_piece-append c front t h = elim (Option-cases (rsplit_once c front)) [
  | inl k ↦
      let free : contains c (front ++ t) ≡ false =
        ground (arith, contains-append c front t, rsplit_once-eq-none c front k, h) in
      (front, rw (last_piece, rsplit_once-free c (front ++ t) free) refl)
  | inr ((a, n), k) ↦
      let (whole, free) = rsplit_once-eq-some c front a n k in
      let free' : contains c (n ++ t) ≡ false = ground (arith, contains-append c n t, free, h) in
      let split : rsplit_once c (front ++ t) ≡ some (a, n ++ t) =
        rw (whole, append_assoc) (rsplit_once-append c a (n ++ t) free') in
      (n, rw (last_piece, split) refl)
]

slashless :
    (name ending : Bytes)
    → contains b'/' (name ++ b'.' ∷ ending) ≡ false
    → contains b'/' ending ≡ false
unfolding contains
slashless name ending h = ground (arith, contains, contains-append b'/' name (b'.' ∷ ending), h)

extension_of-HasExtension : (path e : Bytes) → extension_of path ≡ some e → HasExtension path e
unfolding extension_of
extension_of-HasExtension path e h =
    let (front, whole, plain) = last_piece-end b'/' path in
    elim (Option-cases (rsplit_once b'.' (last_piece b'/' path))) [
      | inl k ↦ cc (rw (extension_of, k) at h)
      | inr ((name, ending), k) ↦
          let (last_is, free) = rsplit_once-eq-some b'.' (last_piece b'/' path) name ending k in
          elim (Bool-cases (bytes_eq ending [])) [
            | inl l ↦ cc (rw (extension_of, k, l) at h)
            | inr l ↦
                let e_is : some (map lower_byte ending) ≡ some e = rw (extension_of, k, l) at h in
                (
                  front ++ name,
                  ending,
                  whole
                      ∙ (ap (λ s. front ++ s) last_is
                          ∙ sym (append_assoc front name (b'.' ∷ ending))),
                  free,
                  slashless name ending (rw last_is at plain),
                  (bytes_eq_nil_iff ending).0 l,
                  ground (arith, e_is),
                )
          ]
    ]

HasExtension-extension_of : (path e : Bytes) → HasExtension path e → extension_of path ≡ some e
unfolding extension_of contains
HasExtension-extension_of path e (front, ending, whole, free, plain, some_bytes, e_is) =
    let plain' : contains b'/' (b'.' ∷ ending) ≡ false = ground (arith, plain) in
    let (n, last_is) = last_piece-append b'/' front (b'.' ∷ ending) plain' in
    let split = rsplit_once-append b'.' n ending free in
    let nonempty : bytes_eq ending [] ≡ false = (bytes_eq_nil_iff ending).1 some_bytes in
    rw (extension_of, whole, last_is, split, nonempty) (ap some (sym e_is))

pub extension_of_iff : (path e : Bytes) → (extension_of path ≡ some e) ↔ HasExtension path e
extension_of_iff path e = (extension_of-HasExtension path e, HasExtension-extension_of path e)
