-- ===== src/Dataset/Freshness.antt =====
-- What the freshness tracker promises over any run of heads.
use pubky_swarm.Base.{
  ℕ, ◌≤◌, ◌<◌, ◌≡◌, refl, sym, ◌∙◌, ◌↔◌, inl, inr, false, some, List, [], ◌∷◌, arith, ltb,
  Bool-cases,
}
use pubky_swarm.Base.Bytes.{bytes_eq_iff}
use pubky_swarm.Base.Result.{ok, err, Result-cases}
use pubky_swarm.Dataset.Error.{Error}
use pubky_swarm.Dataset.Head.{
  DatasetHead, Freshness, initial, unchanged, advanced, FreshnessTracker, same_publisher,
  same_digest, check_against, check, accept,
}

-- The relation that acceptance asks for: the publisher stays, and the sequence grows, or stays
-- with the digest.
pub record Succeeds (old new : DatasetHead) : Type 0 where
  pub publisher_is : old.provenance.publisher.key ≡ new.provenance.publisher.key
  pub not_older : old.authority_sequence ≤ new.authority_sequence
  pub same_state :
      old.authority_sequence ≡ new.authority_sequence
      → old.provenance.manifest_digest.bytes ≡ new.provenance.manifest_digest.bytes

-- What each answer says of the sequences.
abbrev pub Verdict : DatasetHead → DatasetHead → Freshness → Type 0
Verdict old new initial = ⊥
Verdict old new unchanged = old.authority_sequence ≡ new.authority_sequence
Verdict old new advanced = old.authority_sequence < new.authority_sequence

not_lt : (a b : ℕ) → ltb a b ≡ false → b ≤ a
not_lt a b h = ground arith

module _ (old new : DatasetHead) where
  accepted : (f : Freshness) → check_against old new ≡ ok f → Succeeds old new × Verdict old new f
  unfolding check_against same_publisher same_digest
  accepted initial e = absurd (ground arith)
  accepted unchanged e = (
    record {
      publisher_is = (bytes_eq_iff _ _).0 (ground arith);
      not_older = ground arith;
      same_state = λ _. sym ((bytes_eq_iff _ _).0 (ground arith));
    },
    ground arith,
  )
  accepted advanced e = (
    record {
      publisher_is = (bytes_eq_iff _ _).0 (ground arith);
      not_older = ground arith;
      same_state = λ s. absurd (ground arith);
    },
    ground arith,
  )

  refused : (e : Error) → check_against old new ≡ err e → ¬ Succeeds old new
  unfolding check_against same_publisher same_digest
  refused e h s =
      let same =
        (bytes_eq_iff old.provenance.publisher.key new.provenance.publisher.key).1 s.publisher_is in
      elim (Bool-cases (ltb old.authority_sequence new.authority_sequence)) [
        | inl l ↦ ground (arith, same, l)
        | inr l ↦
            let level : old.authority_sequence ≡ new.authority_sequence =
              omega (arith, s.not_older, not_lt old.authority_sequence new.authority_sequence l) in
            let digest =
              (bytes_eq_iff new.provenance.manifest_digest.bytes
                  old.provenance.manifest_digest.bytes).1
                (sym (s.same_state level)) in
            ground (arith, same, level, digest)
      ]

-- A head is accepted after `old` exactly when it succeeds it, and the answer tells whether the
-- sequence grew.
pub check_against_iff :
    (old new : DatasetHead)
    → (((f : Freshness) × (check_against old new ≡ ok f)) ↔ Succeeds old new)
      × ((f : Freshness) → check_against old new ≡ ok f → Verdict old new f)
check_against_iff old new = (
  (
    λ (f, e). (accepted old new f e).0,
    λ s. elim (Result-cases (check_against old new)) [
      | inl (f, e) ↦ (f, e)
      | inr (e, h) ↦ absurd (refused old new e h s)
    ],
  ),
  λ f e. (accepted old new f e).1,
)

Succeeds-refl : (a : DatasetHead) → Succeeds a a
Succeeds-refl a = record { publisher_is = refl; not_older = omega arith; same_state = λ _. refl }

Succeeds-trans : (a b c : DatasetHead) → Succeeds a b → Succeeds b c → Succeeds a c
Succeeds-trans a b c h k = record {
  publisher_is = h.publisher_is ∙ k.publisher_is;
  not_older = omega (arith, h.not_older, k.not_older);
  same_state = λ e.
      h.same_state (omega (arith, h.not_older, k.not_older))
      ∙ k.same_state (omega (arith, h.not_older, k.not_older));
}

-- The tracker after a run of heads, accepted or not.
unfoldable pub accept_all : FreshnessTracker → List DatasetHead → FreshnessTracker
accept_all tracker [] = tracker
accept_all tracker (head ∷ heads) = accept_all (accept tracker head).0 heads

-- The tracker's head is there, and succeeds `old`.
abbrev pub HoldsAfter : DatasetHead → FreshnessTracker → Type 0
HoldsAfter old tracker = (h : DatasetHead) × (tracker.highest ≡ some h) × Succeeds old h

accept-HoldsAfter :
    (old : DatasetHead) (tracker : FreshnessTracker) (head : DatasetHead)
    → HoldsAfter old tracker
    → HoldsAfter old (accept tracker head).0
unfolding accept check
accept-HoldsAfter old tracker head (h, e, s) = elim (Result-cases (check_against h head)) [
  | inl (f, k) ↦
      rw (e, check, k, accept) (head, refl, Succeeds-trans old h head s (accepted h head f k).0)
  | inr (x, k) ↦ rw (e, check, k, accept) (h, e, s)
]

-- Whatever heads are offered after `old` was accepted, the tracker goes on to hold a head of the
-- same publisher whose sequence is no lower, with the same digest where the sequence is the same.
pub accept_all-HoldsAfter :
    (old : DatasetHead) (tracker : FreshnessTracker) (heads : List DatasetHead)
    → tracker.highest ≡ some old
    → HoldsAfter old (accept_all tracker heads)
unfolding accept_all
accept_all-HoldsAfter old tracker heads e = go tracker heads (old, e, Succeeds-refl old)
  where
    go :
        (t : FreshnessTracker) (hs : List DatasetHead)
        → HoldsAfter old t
        → HoldsAfter old (accept_all t hs)
    go t [] h = h
    go t (x ∷ hs) h = go (accept t x).0 hs (accept-HoldsAfter old t x h)

-- A refused head leaves the tracker as it was.
pub accept_refused :
    (tracker : FreshnessTracker) (head : DatasetHead) (e : Error)
    → (accept tracker head).1 ≡ err e
    → (accept tracker head).0 ≡ tracker
unfolding accept check
accept_refused tracker head e h = ground arith
