-- ===== src/Protocol/Artifact/Subjects.antt =====
-- A collection keeps its subjects strictly sorted, whatever order they were given in.
use mathlib.Core.List.{Perm}
use pubky_swarm.Base.{
  ℕ, ◌≡◌, ◌≤◌, ◌↔◌, refl, true, List, [], ◌∷◌, arith, length, Bool-cases, inl, inr,
}
use pubky_swarm.Base.Bytes.{Bytes}
use pubky_swarm.Base.Pairs.{AllPairs, IsChain, IsChain-AllPairs}
use pubky_swarm.Base.Permutation.{sort-of_perm}
use pubky_swarm.Base.Result.{ok}
use pubky_swarm.Base.Sort.{sort, sort-perm}
use pubky_swarm.Protocol.Crates.{Crates}
use pubky_swarm.Protocol.Ids.{PublisherId}
use pubky_swarm.Protocol.Subject.{SubjectRef, SourceAttribution, subject_lt}
use pubky_swarm.Protocol.Subject.Order.{subject_lt-StrictOrder, subject_set}
use pubky_swarm.Protocol.Artifact.{is_ascending, validate_subjects, max_artifact_subjects}
use pubky_swarm.Protocol.Artifact.Collection.{CollectionV1}
use pubky_swarm.Protocol.Artifact.Collection

abbrev Precedes : SubjectRef → SubjectRef → Type 0
Precedes a b = subject_lt a b ≡ true

is_ascending-IsChain : (s : List SubjectRef) → is_ascending s ≡ true → IsChain Precedes s
unfolding is_ascending
is_ascending-IsChain [] h = tt
is_ascending-IsChain (a ∷ []) h = tt
is_ascending-IsChain (a ∷ b ∷ s) h = elim (Bool-cases (subject_lt a b)) [
  | inl k ↦ (k, is_ascending-IsChain (b ∷ s) (rw (is_ascending, k) at h))
  | inr k ↦ cc (rw (is_ascending, k) at h)
]

abbrev pub IsCanonical : List SubjectRef → Type 0
IsCanonical s =
    (1 ≤ length s) × (length s ≤ max_artifact_subjects) × AllPairs (λ a b. subject_lt a b ≡ true) s

validate_subjects-IsCanonical : (s : List SubjectRef) → validate_subjects s ≡ ok tt → IsCanonical s
unfolding validate_subjects
validate_subjects-IsCanonical s e =
    let (low, high, ascending) : (1 ≤ length s)
        × (length s ≤ max_artifact_subjects)
        × (is_ascending s ≡ true) =
      ground arith in
    (
      low,
      high,
      IsChain-AllPairs Precedes subject_lt-StrictOrder.trans s (is_ascending-IsChain s ascending),
    )

IsChain-is_ascending : (s : List SubjectRef) → AllPairs Precedes s → is_ascending s ≡ true
unfolding is_ascending
IsChain-is_ascending [] h = refl
IsChain-is_ascending (a ∷ []) h = refl
IsChain-is_ascending (a ∷ b ∷ s) ((h, _), hs) = ground (arith, h, IsChain-is_ascending (b ∷ s) hs)

pub validate_subjects_iff : (s : List SubjectRef) → (validate_subjects s ≡ ok tt) ↔ IsCanonical s
unfolding validate_subjects
validate_subjects_iff s = (
  validate_subjects-IsCanonical s,
  λ (low, high, sorted). ground (arith, low, high, IsChain-is_ascending s sorted),
)

collection_subjects :
    (c : CollectionV1) → Collection.validate c ≡ ok tt → validate_subjects c.subjects ≡ ok tt
unfolding Collection.validate
collection_subjects c e = ground arith

module _ (x : Crates) where
  new-parts :
      (issuer : PublisherId) (title description : Bytes) (s : List SubjectRef)
      (created_at revision : ℕ) (source : SourceAttribution) (c : CollectionV1)
      → Collection.new x issuer title description s created_at revision source ≡ ok c
      → (Collection.validate c ≡ ok tt) × (c.subjects ≡ sort subject_lt s)
  unfolding Collection.new Collection.validate
  new-parts issuer title description s created_at revision source c e = ground arith

  -- A collection that `new` returns lists the given subjects, from 1 to 10 000, each before all
  -- that are greater and none twice; and `new` returns the same collection, with the same id, for
  -- the same subjects in any other order.
  pub new_collection-perm :
      (issuer : PublisherId) (title description : Bytes) (s t : List SubjectRef)
      (created_at revision : ℕ) (source : SourceAttribution) (c : CollectionV1)
      → Perm s t
      → Collection.new x issuer title description s created_at revision source ≡ ok c
      → (Collection.new x issuer title description t created_at revision source ≡ ok c)
        × IsCanonical c.subjects
        × Perm c.subjects s
  unfolding Collection.new
  new_collection-perm issuer title description s t created_at revision source c p e =
      let (valid, sorted) = new-parts issuer title description s created_at revision source c e in
      let same = sort-of_perm subject_lt subject_lt-StrictOrder subject_set s t p in
      (
        rw (← same) e,
        validate_subjects-IsCanonical c.subjects (collection_subjects c valid),
        rw sorted (sort-perm subject_lt s),
      )
