-- ===== src/Protocol/Import/Boundary.antt =====
-- What provenance an accepted observation has: the trust boundary of its value.
use pubky_swarm.Base.{
  ◌≡◌, ◌<◌, ◌⊎◌, refl, ap, inl, inr, Bool, true, false, not, if◌then◌else◌, ◌==◌, arith, Bool-cases,
}
use pubky_swarm.Base.Bytes.{Bytes, bytes_eq, bytes_eq_iff}
use pubky_swarm.Base.Result.{ok, guard, >>-eq-ok}
use pubky_swarm.Protocol.Crates.{Crates}
use pubky_swarm.Protocol.Error.{Error}
use pubky_swarm.Protocol.Ids.{PublisherId}
use pubky_swarm.Protocol.Release.{validate_tracker_url}
use pubky_swarm.Protocol.Import.{
  TorrentRef, same_torrent, ImportProvenance, info_authenticated, top_level_hint, magnet_hint,
  indexer_claim, local_client, TrackerSource, kt, torznab, q_bittorrent, ObservationValue, title,
  privacy, file_extension, file_type, comment, creator, creation_date, tracker, relation,
  suggestion, ImportObservation, matches_boundary, outside_boundary, validate_tracker,
  validate_suggestion, validate_value, validate,
}

module _ (x : Crates) where
  -- Where a value may come from: what the torrent authenticates, from its info dictionary alone; a
  -- hint, from the field that it stands in; a tracker, from the source that its provenance names;
  -- a suggestion, from the indexer that issued it or from the local qBittorrent.
  abbrev pub Allowed : TorrentRef → ImportProvenance → ObservationValue → Type 0
  Allowed subject p (title _) = (p ≡ info_authenticated) ⊎ (p ≡ magnet_hint)
  Allowed subject p (privacy _) = p ≡ info_authenticated
  Allowed subject p (file_extension _) = p ≡ info_authenticated
  Allowed subject p (file_type _) = p ≡ info_authenticated
  Allowed subject p (comment _) = p ≡ top_level_hint
  Allowed subject p (creator _) = p ≡ top_level_hint
  Allowed subject p (creation_date _) = p ≡ top_level_hint
  Allowed subject p (tracker url source) =
      (validate_tracker_url x url ≡ ok tt) × (matches_boundary p source ≡ true)
  Allowed subject p (relation _ target) =
      (p ≡ top_level_hint) × (same_torrent target subject ≡ false)
  Allowed subject p (suggestion namespace _ _ issuer) =
      (p ≡ indexer_claim issuer) ⊎ ((p ≡ local_client) × (namespace ≡ q_bittorrent))

last_guard : (t : Bool) (e : Error) → guard t e ≡ ok tt → t ≡ true
last_guard true e h = refl
last_guard false e h = cc

other_torrent :
    (target subject : TorrentRef)
    → (if not (same_torrent target subject) then ok tt else outside_boundary) ≡ ok tt
    → same_torrent target subject ≡ false
unfolding outside_boundary
other_torrent target subject e = ground arith

module _ (x : Crates) where
  validate_tracker-eq-ok :
      (p : ImportProvenance) (url : Bytes) (source : TrackerSource)
      → validate_tracker x p url source ≡ ok tt
      → (validate_tracker_url x url ≡ ok tt) × (matches_boundary p source ≡ true)
  unfolding validate_tracker
  validate_tracker-eq-ok p url source e =
      let (good, k) = >>-eq-ok (validate_tracker_url x url) _ e in
      (good, last_guard (matches_boundary p source) _ k)

  same_issuer :
      (p issuer : PublisherId) (f v : Bytes)
      → (if bytes_eq p.key issuer.key then validate_suggestion x f v else outside_boundary) ≡ ok tt
      → p ≡ issuer
  unfolding outside_boundary
  same_issuer p issuer f v e = elim (Bool-cases (bytes_eq p.key issuer.key)) [
    | inl k ↦ ground (arith, (bytes_eq_iff p.key issuer.key).0 k)
    | inr k ↦ cc (rw k at e)
  ]

  pub validate_value-Allowed :
      (subject : TorrentRef) (p : ImportProvenance) (value : ObservationValue)
      → validate_value x subject p value ≡ ok tt
      → Allowed x subject p value
  unfolding validate_value outside_boundary
  validate_value-Allowed subject info_authenticated (title v) e = inl refl
  validate_value-Allowed subject top_level_hint (title v) e = cc
  validate_value-Allowed subject magnet_hint (title v) e = inr refl
  validate_value-Allowed subject (indexer_claim p) (title v) e = cc
  validate_value-Allowed subject local_client (title v) e = cc
  validate_value-Allowed subject info_authenticated (privacy b) e = refl
  validate_value-Allowed subject top_level_hint (privacy b) e = cc
  validate_value-Allowed subject magnet_hint (privacy b) e = cc
  validate_value-Allowed subject (indexer_claim p) (privacy b) e = cc
  validate_value-Allowed subject local_client (privacy b) e = cc
  validate_value-Allowed subject info_authenticated (file_extension v) e = refl
  validate_value-Allowed subject top_level_hint (file_extension v) e = cc
  validate_value-Allowed subject magnet_hint (file_extension v) e = cc
  validate_value-Allowed subject (indexer_claim p) (file_extension v) e = cc
  validate_value-Allowed subject local_client (file_extension v) e = cc
  validate_value-Allowed subject info_authenticated (file_type t) e = refl
  validate_value-Allowed subject top_level_hint (file_type t) e = cc
  validate_value-Allowed subject magnet_hint (file_type t) e = cc
  validate_value-Allowed subject (indexer_claim p) (file_type t) e = cc
  validate_value-Allowed subject local_client (file_type t) e = cc
  validate_value-Allowed subject info_authenticated (comment v) e = cc
  validate_value-Allowed subject top_level_hint (comment v) e = refl
  validate_value-Allowed subject magnet_hint (comment v) e = cc
  validate_value-Allowed subject (indexer_claim p) (comment v) e = cc
  validate_value-Allowed subject local_client (comment v) e = cc
  validate_value-Allowed subject info_authenticated (creator v) e = cc
  validate_value-Allowed subject top_level_hint (creator v) e = refl
  validate_value-Allowed subject magnet_hint (creator v) e = cc
  validate_value-Allowed subject (indexer_claim p) (creator v) e = cc
  validate_value-Allowed subject local_client (creator v) e = cc
  validate_value-Allowed subject info_authenticated (creation_date n) e = cc
  validate_value-Allowed subject top_level_hint (creation_date n) e = refl
  validate_value-Allowed subject magnet_hint (creation_date n) e = cc
  validate_value-Allowed subject (indexer_claim p) (creation_date n) e = cc
  validate_value-Allowed subject local_client (creation_date n) e = cc
  validate_value-Allowed subject info_authenticated (tracker url source) e = cc
  validate_value-Allowed subject top_level_hint (tracker url source) e =
      validate_tracker-eq-ok top_level_hint url source e
  validate_value-Allowed subject magnet_hint (tracker url source) e =
      validate_tracker-eq-ok magnet_hint url source e
  validate_value-Allowed subject (indexer_claim p) (tracker url source) e =
      validate_tracker-eq-ok (indexer_claim p) url source e
  validate_value-Allowed subject local_client (tracker url source) e =
      validate_tracker-eq-ok local_client url source e
  validate_value-Allowed subject info_authenticated (relation r target) e = cc
  validate_value-Allowed subject top_level_hint (relation r target) e =
      (refl, other_torrent target subject e)
  validate_value-Allowed subject magnet_hint (relation r target) e = cc
  validate_value-Allowed subject (indexer_claim p) (relation r target) e = cc
  validate_value-Allowed subject local_client (relation r target) e = cc
  validate_value-Allowed subject info_authenticated (suggestion kt f v issuer) e = cc
  validate_value-Allowed subject top_level_hint (suggestion kt f v issuer) e = cc
  validate_value-Allowed subject magnet_hint (suggestion kt f v issuer) e = cc
  validate_value-Allowed subject (indexer_claim p) (suggestion kt f v issuer) e =
      inl (ap indexer_claim (same_issuer p issuer f v e))
  validate_value-Allowed subject local_client (suggestion kt f v issuer) e = cc
  validate_value-Allowed subject info_authenticated (suggestion torznab f v issuer) e = cc
  validate_value-Allowed subject top_level_hint (suggestion torznab f v issuer) e = cc
  validate_value-Allowed subject magnet_hint (suggestion torznab f v issuer) e = cc
  validate_value-Allowed subject (indexer_claim p) (suggestion torznab f v issuer) e =
      inl (ap indexer_claim (same_issuer p issuer f v e))
  validate_value-Allowed subject local_client (suggestion torznab f v issuer) e = cc
  validate_value-Allowed subject info_authenticated (suggestion q_bittorrent f v issuer) e = cc
  validate_value-Allowed subject top_level_hint (suggestion q_bittorrent f v issuer) e = cc
  validate_value-Allowed subject magnet_hint (suggestion q_bittorrent f v issuer) e = cc
  validate_value-Allowed subject (indexer_claim p) (suggestion q_bittorrent f v issuer) e =
      inl (ap indexer_claim (same_issuer p issuer f v e))
  validate_value-Allowed subject local_client (suggestion q_bittorrent f v issuer) e =
      inr (refl, refl)

  -- An accepted observation has a positive time, and its value comes from a provenance that may
  -- supply it; in particular what the torrent authenticates is never taken from a hint.
  pub validate-Allowed :
      (o : ImportObservation)
      → validate x o ≡ ok tt
      → (0 < o.observed_at) × Allowed x o.subject o.provenance o.value
  unfolding validate
  validate-Allowed o e = elim (Bool-cases (o.observed_at == 0)) [
    | inl k ↦ cc (rw (validate, k) at e)
    | inr k ↦ (
      ground (arith, k),
      validate_value-Allowed o.subject o.provenance o.value (rw (validate, k) at e),
    )
  ]
