-- ===== src/Protocol/Import/Derived.antt =====
-- When a tracker is mapped to an observation.
use pubky_swarm.Base.{
  ℕ, ◌<◌, ◌≡◌, ◌↔◌, refl, inl, inr, false, Option, none, some, ◌==◌, arith, Bool-cases,
}
use pubky_swarm.Base.Bytes.{Bytes}
use pubky_swarm.Base.Result.{ok, >>=-eq-ok, >>-eq-ok}
use pubky_swarm.Protocol.Crates.{Crates}
use pubky_swarm.Protocol.Ids.{PublisherId}
use pubky_swarm.Protocol.Release.{validate_tracker_url}
use pubky_swarm.Protocol.Import.{
  TorrentRef, ImportProvenance, top_level_hint, magnet_hint, indexer_claim, local_client,
  TrackerSource, announce, announce_list, magnet, indexer, local, ObservationValue, tracker,
  ImportObservation, matches_boundary, validate_tracker, validate_value, validate, new,
}
use pubky_swarm.Protocol.Import.Boundary.{validate_value-Allowed}
use pubky_swarm.Protocol.Import.Sources.{tracker_provenance, map_tracker}

module _ (x : Crates) (subject : TorrentRef) (observed_at : ℕ) where
  -- What the provenance of a source needs.
  abbrev pub HasIssuer : TrackerSource → Option PublisherId → Type 0
  HasIssuer indexer none = ⊥
  HasIssuer _ _ = Unit

  validate_value-tracker :
      (url : Bytes) (source : TrackerSource) (issuer : Option PublisherId)
      → HasIssuer source issuer
      → validate_tracker_url x url ≡ ok tt
      → (p : ImportProvenance) × (tracker_provenance source issuer ≡ ok p)
        × (validate_value x subject p (tracker url source) ≡ ok tt)
  unfolding tracker_provenance validate_value validate_tracker matches_boundary
  validate_value-tracker url announce issuer h good =
      (top_level_hint, refl, rw (validate_tracker, good))
  validate_value-tracker url announce_list issuer h good =
      (top_level_hint, refl, rw (validate_tracker, good))
  validate_value-tracker url magnet issuer h good = (magnet_hint, refl, rw (validate_tracker, good))
  validate_value-tracker url indexer none h good = absurd h
  validate_value-tracker url indexer (some issuer) h good =
      (indexer_claim issuer, refl, rw (validate_tracker, good))
  validate_value-tracker url local issuer h good = (local_client, refl, rw (validate_tracker, good))

  needs_issuer :
      (source : TrackerSource) (issuer : Option PublisherId) (p : ImportProvenance)
      → tracker_provenance source issuer ≡ ok p
      → HasIssuer source issuer
  unfolding tracker_provenance
  needs_issuer announce issuer p e = tt
  needs_issuer announce_list issuer p e = tt
  needs_issuer magnet issuer p e = tt
  needs_issuer indexer none p e = absurd (cc e)
  needs_issuer indexer (some issuer) p e = tt
  needs_issuer local issuer p e = tt

  new-eq-some :
      (p : ImportProvenance) (v : ObservationValue)
      → 0 < observed_at
      → validate_value x subject p v ≡ ok tt
      → (o : ImportObservation) × (new x subject observed_at p v ≡ ok o)
  unfolding new validate
  new-eq-some p v h good =
      let positive : observed_at == 0 ≡ false = ground (arith, h) in
      (
        record { subject = subject; observed_at = observed_at; provenance = p; value = v },
        rw (new, positive, validate, good) refl,
      )

  new-parts :
      (p : ImportProvenance) (v : ObservationValue) (o : ImportObservation)
      → new x subject observed_at p v ≡ ok o
      → (0 < observed_at) × (validate_value x subject p v ≡ ok tt)
  unfolding new validate
  new-parts p v o e = elim (Bool-cases (observed_at == 0)) [
    | inl k ↦ cc (rw (new, k) at e)
    | inr k ↦
        let (valid, _) = >>-eq-ok (validate_value x subject p v) _ (rw (new, k) at e) in
        (ground (arith, k), valid)
  ]

  tracker_read :
      (url : Bytes) (source : TrackerSource) (issuer : Option PublisherId) (o : ImportObservation)
      → map_tracker x subject observed_at url source issuer ≡ ok o
      → (0 < observed_at) × (validate_tracker_url x url ≡ ok tt) × HasIssuer source issuer
  unfolding map_tracker
  tracker_read url source issuer o e =
      let (p, e₁, k) = >>=-eq-ok (tracker_provenance source issuer) _ e in
      let (positive, valid) = new-parts p (tracker url source) o k in
      let (good, _) = validate_value-Allowed x subject p (tracker url source) valid in
      (positive, good, needs_issuer source issuer p e₁)

  tracker_mapped :
      (url : Bytes) (source : TrackerSource) (issuer : Option PublisherId)
      → 0 < observed_at
      → validate_tracker_url x url ≡ ok tt
      → HasIssuer source issuer
      → (o : ImportObservation) × (map_tracker x subject observed_at url source issuer ≡ ok o)
  unfolding map_tracker
  tracker_mapped url source issuer h good has =
      let (p, e, valid) = validate_value-tracker url source issuer has good in
      let (o, made) = new-eq-some p (tracker url source) h valid in
      (o, rw (map_tracker, e, made) refl)

  -- A tracker is mapped to an observation exactly when the time is positive, its URL is accepted,
  -- and an issuer is given where the source is an indexer: the provenance that is chosen always
  -- matches the source.
  pub map_tracker_iff :
      (url : Bytes) (source : TrackerSource) (issuer : Option PublisherId)
      → ((o : ImportObservation) × (map_tracker x subject observed_at url source issuer ≡ ok o))
        ↔ ((0 < observed_at) × (validate_tracker_url x url ≡ ok tt) × HasIssuer source issuer)
  map_tracker_iff url source issuer = (
    λ (o, e). tracker_read url source issuer o e,
    λ (h, good, has). tracker_mapped url source issuer h good has,
  )
