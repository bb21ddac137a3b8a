-- ===== src/Protocol/Manifest/Lookup.antt =====
-- `object` finds exactly the declared objects: the binary search of a valid manifest.
use pubky_swarm.Base.{
  ℕ, zero, suc, ◌+◌, ◌-◌, ◌/◌, ◌≤◌, ◌<◌, ◌≡◌, sym, ap, ◌∙◌, ◌↔◌, inl, inr, true, false, none, some,
  List, arith, ltb, lt→ltb, ltb→lt, Bool-cases, Option-cases, length, get_elem?,
}
use pubky_swarm.Base.Bytes.{Bytes, bytes_lt, bytes_lt-StrictOrder}
use pubky_swarm.Base.Order.{asym}
use pubky_swarm.Protocol.Manifest.{
  ManifestObjectV1, DatasetManifestV1, validate, search_from, object,
}
use pubky_swarm.Protocol.Manifest.Order.{
  Ascending, validate-IsValid, index_lt, in_range, index_of_some,
}
use mathlib.Core.Path.{subst}
use pubky_swarm.Base.Result.{ok}

-- The manifest lists `o` at some index.
abbrev pub Declared : DatasetManifestV1 → ManifestObjectV1 → Type 0
Declared m o = (i : ℕ) × (get_elem? m.objects i ≡ some o)

-- One round, by how the middle object compares.
module _ (fuel : ℕ) (os : List ManifestObjectV1) (path : Bytes) (lo hi : ℕ) (o : ManifestObjectV1)
    (open_range : lo < hi) (middle : get_elem? os (lo + (hi - lo) / 2) ≡ some o) where
  round_right :
      bytes_lt o.path path ≡ true
      → search_from (suc fuel) os path lo hi ≡ search_from fuel os path (lo + (hi - lo) / 2 + 1) hi
  unfolding search_from
  round_right h = rw (lt→ltb lo hi open_range, middle, h)

  round_left :
      bytes_lt o.path path ≡ false
      → bytes_lt path o.path ≡ true
      → search_from (suc fuel) os path lo hi ≡ search_from fuel os path lo (lo + (hi - lo) / 2)
  unfolding search_from
  round_left h k = rw (lt→ltb lo hi open_range, middle, h, k)

  round_found :
      bytes_lt o.path path ≡ false
      → bytes_lt path o.path ≡ false
      → search_from (suc fuel) os path lo hi ≡ some o
  unfolding search_from
  round_found h k = rw (lt→ltb lo hi open_range, middle, h, k)

module _ (os : List ManifestObjectV1) (up : Ascending os) (i : ℕ) (b : ManifestObjectV1)
    (at_i : get_elem? os i ≡ some b) where
  -- A middle object below the wanted one stands before it, and one above behind it.
  before :
      (j : ℕ) (o : ManifestObjectV1)
      → get_elem? os j ≡ some o
      → bytes_lt o.path b.path ≡ true
      → j < i
  before j o e h = elim (Bool-cases (ltb j i)) [
    | inl l ↦ ground arith
    | inr l ↦ elim (Bool-cases (ltb i j)) [
      | inl g ↦ cc (
        asym bytes_lt bytes_lt-StrictOrder o.path b.path h,
        index_lt os i j b o up (ground arith) at_i e,
      )
      | inr g ↦
          let same : i ≡ j = ground arith in
          let eq : o ≡ b = cc in cc (bytes_lt-StrictOrder.irrefl b.path, rw eq at h)
    ]
  ]

  after :
      (j : ℕ) (o : ManifestObjectV1)
      → get_elem? os j ≡ some o
      → bytes_lt b.path o.path ≡ true
      → i < j
  after j o e h = elim (Bool-cases (ltb i j)) [
    | inl l ↦ ground arith
    | inr l ↦ elim (Bool-cases (ltb j i)) [
      | inl g ↦ cc (
        asym bytes_lt bytes_lt-StrictOrder b.path o.path h,
        index_lt os j i o b up (ground arith) e at_i,
      )
      | inr g ↦
          let same : i ≡ j = ground arith in
          let eq : o ≡ b = cc in cc (bytes_lt-StrictOrder.irrefl b.path, rw eq at h)
    ]
  ]

  level : (j : ℕ) (o : ManifestObjectV1) → get_elem? os j ≡ some o → o.path ≡ b.path → o ≡ b
  level j o e h = elim (Bool-cases (ltb i j)) [
    | inl l ↦
        cc (
          bytes_lt-StrictOrder.irrefl b.path,
          rw h at (index_lt os i j b o up (ground arith) at_i e),
        )
    | inr l ↦ elim (Bool-cases (ltb j i)) [
      | inl g ↦ cc (
        bytes_lt-StrictOrder.irrefl b.path,
        rw h at (index_lt os j i o b up (ground arith) e at_i),
      )
      | inr g ↦ let same : i ≡ j = ground arith in cc
    ]
  ]

  search_from_complete :
      (fuel lo hi : ℕ)
      → lo ≤ i
      → i < hi
      → hi ≤ length os
      → hi - lo < fuel
      → search_from fuel os b.path lo hi ≡ some b
  search_from_complete zero lo hi l h n f = absurd (omega arith)
  search_from_complete (suc fuel) lo hi l h n f =
      let mid = lo + (hi - lo) / 2 in
      let (o, e) = in_range os mid (omega arith) in
      let range : lo < hi = omega arith in
      elim (Bool-cases (bytes_lt o.path b.path)) [
        | inl below ↦
            let j = before mid o e below in
            round_right fuel os b.path lo hi o range e below
            ∙ search_from_complete fuel (mid + 1) hi (omega arith) h n (omega arith)
        | inr not_below ↦ elim (Bool-cases (bytes_lt b.path o.path)) [
          | inl above ↦
              let j = after mid o e above in
              round_left fuel os b.path lo hi o range e not_below above
              ∙ search_from_complete fuel lo mid l (omega arith) (omega arith) (omega arith)
          | inr not_above ↦
              let same =
                level mid o e (bytes_lt-StrictOrder.total o.path b.path not_below not_above) in
              round_found fuel os b.path lo hi o range e not_below not_above ∙ ap some same
        ]
      ]

round_empty :
    (fuel : ℕ) (os : List ManifestObjectV1) (path : Bytes) (lo hi : ℕ)
    → ltb lo hi ≡ false
    → search_from (suc fuel) os path lo hi ≡ none
unfolding search_from
round_empty fuel os path lo hi h = rw h

round_gap :
    (fuel : ℕ) (os : List ManifestObjectV1) (path : Bytes) (lo hi : ℕ)
    → get_elem? os (lo + (hi - lo) / 2) ≡ none
    → search_from (suc fuel) os path lo hi ≡ none
unfolding search_from
round_gap fuel os path lo hi h = ground arith

-- Whatever the search returns is listed, and has the path.
search_from_sound :
    (fuel : ℕ) (os : List ManifestObjectV1) (path : Bytes) (lo hi : ℕ) (b : ManifestObjectV1)
    → search_from fuel os path lo hi ≡ some b
    → (b.path ≡ path) × ((i : ℕ) × (get_elem? os i ≡ some b))
search_from_sound zero os path lo hi b e = unfold search_from in cc
search_from_sound (suc fuel) os path lo hi b e =
    let mid = lo + (hi - lo) / 2 in
    elim (Bool-cases (ltb lo hi)) [
      | inr closed ↦ cc (round_empty fuel os path lo hi closed)
      | inl range ↦
          let lt = ltb→lt lo hi range in
          elim (Option-cases (get_elem? os mid)) [
            | inl gap ↦ cc (round_gap fuel os path lo hi gap)
            | inr (o, at) ↦ elim (Bool-cases (bytes_lt o.path path)) [
              | inl below ↦
                  search_from_sound fuel os path (mid + 1) hi b
                    (sym (round_right fuel os path lo hi o lt at below) ∙ e)
              | inr not_below ↦ elim (Bool-cases (bytes_lt path o.path)) [
                | inl above ↦
                    search_from_sound fuel os path lo mid b
                      (sym (round_left fuel os path lo hi o lt at not_below above) ∙ e)
                | inr not_above ↦
                    let same : o ≡ b =
                      cc (round_found fuel os path lo hi o lt at not_below not_above) in
                    let level = bytes_lt-StrictOrder.total o.path path not_below not_above in
                    (rw (← same) level, (mid, at ∙ ap some same))
              ]
            ]
          ]
    ]

-- In a valid manifest `object` returns an object exactly when the manifest lists it at that path.
pub object_iff :
    (m : DatasetManifestV1) (path : Bytes) (o : ManifestObjectV1)
    → validate m ≡ ok tt
    → (object m path ≡ some o) ↔ (Declared m o × (o.path ≡ path))
unfolding object
object_iff m path o v = (
  λ e. let (p, d) = search_from_sound _ m.objects path 0 (length m.objects) o e in (d, p),
  λ ((i, at_i), p).
      subst
        (λ path. search_from (suc (length m.objects)) m.objects path 0 (length m.objects) ≡ some o)
        p
        (search_from_complete m.objects (validate-IsValid m v).ascending i o at_i
          (suc (length m.objects)) 0 (length m.objects) (omega arith)
          (index_of_some m.objects i o at_i) (omega arith) (omega arith)),
)
