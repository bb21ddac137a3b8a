-- ===== src/Protocol/Import/Public.antt =====
-- What makes a set of observations eligible for the public catalog.
use pubky_swarm.Base.{
  ℕ, zero, suc, ◌≤◌, ◌<◌, ◌≡◌, ◌↔◌, ◌⊎◌, refl, ap, ◌∙◌, inl, inr, Bool, true, false, not, ◌||◌,
  Option, none, some, List, [], ◌∷◌, ltb, ◌==◌, length, any, arith, All, get_elem?, Option-cases,
}
use pubky_swarm.Base.Bytes.{bytes_eq_iff, bytes_eq_refl}
use pubky_swarm.Base.Result.{ok, guard, >>=-eq-ok, guard-eq-ok}
use pubky_swarm.Protocol.Error.{Error}
use pubky_swarm.Protocol.Import.{
  TorrentRef, btih, btmh, verified_hybrid, same_torrent, ImportObservation, PublicCatalogImport,
  max_import_observations, ensure_public_catalog_eligible, authenticated_privacy, privacy_from,
  validate_import,
}

-- The authenticated privacy bit of an observation, where it is one.
abbrev pub privacy_of : ImportObservation → Option Bool
privacy_of o = authenticated_privacy o.provenance o.value

-- An observation of some index tells that the torrent is public.
abbrev pub ShowsPublic : List ImportObservation → Type 0
ShowsPublic os =
    (i : ℕ) × (o : ImportObservation) × (get_elem? os i ≡ some o) × (privacy_of o ≡ some false)

abbrev pub NotPrivate : ImportObservation → Type 0
NotPrivate o = (privacy_of o ≡ none) ⊎ (privacy_of o ≡ some false)

-- One to 10 000 observations of one torrent, which by authenticated metadata is public.
pub record IsPublic (i : PublicCatalogImport) : Type 0 where
  pub some_observations : 0 < length i.observations
  pub few_observations : length i.observations ≤ max_import_observations
  pub one_subject : All (λ (o : ImportObservation). o.subject ≡ i.subject) i.observations
  pub none_private : All NotPrivate i.observations
  pub shows_public : ShowsPublic i.observations

same_torrent_sound : (a b : TorrentRef) → same_torrent a b ≡ true → a ≡ b
unfolding same_torrent
same_torrent_sound (btih a) (btih b) h = ground (arith, (bytes_eq_iff a.bytes b.bytes).0 h)
same_torrent_sound (btmh a) (btmh b) h = ground (arith, (bytes_eq_iff a.bytes b.bytes).0 h)
same_torrent_sound (verified_hybrid a c) (verified_hybrid b d) h =
    ground (arith, (bytes_eq_iff a.bytes b.bytes).0, (bytes_eq_iff c.bytes d.bytes).0)
same_torrent_sound (btih a) (btmh b) h = cc
same_torrent_sound (btih a) (verified_hybrid b d) h = cc
same_torrent_sound (btmh a) (btih b) h = cc
same_torrent_sound (btmh a) (verified_hybrid b d) h = cc
same_torrent_sound (verified_hybrid a c) (btih b) h = cc
same_torrent_sound (verified_hybrid a c) (btmh b) h = cc

same_torrent_refl : (a : TorrentRef) → same_torrent a a ≡ true
unfolding same_torrent
same_torrent_refl (btih a) = bytes_eq_refl a.bytes
same_torrent_refl (btmh a) = bytes_eq_refl a.bytes
same_torrent_refl (verified_hybrid a b) =
    ground (arith, bytes_eq_refl a.bytes, bytes_eq_refl b.bytes)

one_subject_sound :
    (s : TorrentRef) (os : List ImportObservation)
    → not (any (λ (o : ImportObservation). not (same_torrent o.subject s)) os) ≡ true
    → All (λ (o : ImportObservation). o.subject ≡ s) os
one_subject_sound s [] h = tt
one_subject_sound s (o ∷ os) h =
    (same_torrent_sound o.subject s (ground arith), one_subject_sound s os (ground arith))

one_subject_complete :
    (s : TorrentRef) (os : List ImportObservation)
    → All (λ (o : ImportObservation). o.subject ≡ s) os
    → not (any (λ (o : ImportObservation). not (same_torrent o.subject s)) os) ≡ true
one_subject_complete s [] h = refl
one_subject_complete s (o ∷ os) (h, hs) =
    let same : same_torrent o.subject s ≡ true = rw h (same_torrent_refl s) in
    rw same (one_subject_complete s os hs)

last_guard : (t : Bool) (e : Error) → guard t e ≡ ok tt → t ≡ true
last_guard true e h = refl
last_guard false e h = cc

-- The loop, with what it has seen.
privacy_from-eq-ok :
    (saw : Bool) (os : List ImportObservation)
    → privacy_from saw os ≡ ok true
    → All NotPrivate os × ((saw ≡ true) ⊎ ShowsPublic os)
unfolding privacy_from ensure_public_catalog_eligible
privacy_from-eq-ok saw [] e = (tt, inl (ground arith))
privacy_from-eq-ok saw (o ∷ os) e = elim (Option-cases (privacy_of o)) [
  | inl k ↦
      let (rest, seen) = privacy_from-eq-ok saw os (rw (privacy_from, k) at e) in
      (
        (inl k, rest),
        elim seen [ inl p ↦ inl p | inr (i, o', at_i, public) ↦ inr (suc i, o', at_i, public) ],
      )
  | inr (true, k) ↦ cc (rw (privacy_from, k) at e)
  | inr (false, k) ↦
      let (rest, _) = privacy_from-eq-ok true os (rw (privacy_from, k) at e) in
      ((inr k, rest), inr (0, o, refl, k))
]

privacy_from-ok :
    (saw : Bool) (os : List ImportObservation)
    → All NotPrivate os
    → (saw ≡ true) ⊎ ShowsPublic os
    → privacy_from saw os ≡ ok true
unfolding privacy_from ensure_public_catalog_eligible
privacy_from-ok saw [] h (inl p) = ground arith
privacy_from-ok saw [] h (inr (i, o, at_i, public)) = cc
privacy_from-ok saw (o ∷ os) (inr k, hs) seen =
    rw (privacy_from, k) (privacy_from-ok true os hs (inl refl))
privacy_from-ok saw (o ∷ os) (inl k, hs) (inl p) =
    rw (privacy_from, k) (privacy_from-ok saw os hs (inl p))
privacy_from-ok saw (o ∷ os) (inl k, hs) (inr (zero, o', at_i, public)) =
    let same : o ≡ o' = ground arith in cc (k, public, same)
privacy_from-ok saw (o ∷ os) (inl k, hs) (inr (suc i, o', at_i, public)) =
    rw (privacy_from, k) (privacy_from-ok saw os hs (inr (i, o', at_i, public)))

import_read : (i : PublicCatalogImport) → validate_import i ≡ ok tt → IsPublic i
unfolding validate_import
import_read i e =
    let (h₁, e₁) =
      guard-eq-ok
        (not (length i.observations == 0 || ltb max_import_observations (length i.observations))) _
        _ e in
    let (h₂, e₂) =
      guard-eq-ok
        (not
          (any (λ (o : ImportObservation). not (same_torrent o.subject i.subject)) i.observations))
        _ _ e₁ in
    let (saw, h₃, e₃) = >>=-eq-ok (privacy_from false i.observations) _ e₂ in
    let (quiet, seen) =
      privacy_from-eq-ok false i.observations (h₃ ∙ ap ok (last_guard saw _ e₃)) in
    record {
      some_observations = ground (arith, h₁);
      few_observations = ground (arith, h₁);
      one_subject = one_subject_sound i.subject i.observations h₂;
      none_private = quiet;
      shows_public = elim seen [ inl p ↦ absurd (cc p) | inr public ↦ public ];
    }

import_accepted : (i : PublicCatalogImport) → IsPublic i → validate_import i ≡ ok tt
unfolding validate_import
import_accepted i h =
    let count : not
          (length i.observations == 0 || ltb max_import_observations (length i.observations))
        ≡ true =
      ground (arith, h.some_observations, h.few_observations) in
    rw (
      validate_import,
      count,
      one_subject_complete i.subject i.observations h.one_subject,
      privacy_from-ok false i.observations h.none_private (inr h.shows_public),
    )

-- Observations are accepted for the public catalog exactly when there are between 1 and 10 000 of
-- them, all of one torrent, at least one of them is an authenticated privacy bit, and every
-- authenticated privacy bit says that the torrent is public.
pub validate_import_iff : (i : PublicCatalogImport) → (validate_import i ≡ ok tt) ↔ IsPublic i
validate_import_iff i = (import_read i, import_accepted i)
