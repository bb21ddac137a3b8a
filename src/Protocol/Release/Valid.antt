-- ===== src/Protocol/Release/Valid.antt =====
-- What a release that is built or read promises.
use pubky_swarm.Base.{ℕ, ◌≤◌, ◌<◌, ◌≡◌, ◌↔◌, refl, ap, true, not, List, ◌==◌, length, arith, All}
use pubky_swarm.Base.Bytes.{Bytes, bytes_eq, bytes_eq_iff}
use pubky_swarm.Base.Pairs.{AllPairs}
use pubky_swarm.Base.Result.{Result, ok, guard-eq-ok, >>-eq-ok}
use pubky_swarm.Protocol.Crates.{Crates}
use pubky_swarm.Protocol.Error.{Error}
use pubky_swarm.Protocol.Ids.{PublisherId, ReleaseId, release_id_derive}
use pubky_swarm.Protocol.Portable.{validate_text, is_tag}
use pubky_swarm.Protocol.Portable.Text.{IsText, validate_text_iff}
use pubky_swarm.Protocol.Release.{
  TorrentV1, ReleaseV1, release_schema, release_version, validate_torrent, validate, new,
  try_from_wire,
}
use pubky_swarm.Protocol.Release.Torrent.{
  IsTorrent, TagBefore, validate_torrent-IsTorrent, validate_tags-eq-ok,
}

accepts : ReleaseV1 → Result Error ReleaseV1
accepts = ok

ok_is : (a b : ReleaseV1) → accepts a ≡ ok b → a ≡ b
unfolding accepts
ok_is a b e = ground arith

module _ (x : Crates) where
  -- A release whose every part has passed its checks.
  pub record IsRelease (release : ReleaseV1) : Type 0 where
    pub schema_is : release.schema ≡ release_schema
    pub version_is : release.version ≡ release_version
    pub title_ok : IsText release.title 1 200
    pub description_ok : IsText release.description 0 4000
    pub dated : 0 < release.created_at
    pub torrent_ok : IsTorrent x release.torrent
    pub few_tags : length release.tags ≤ 16
    pub good_tags : All (λ tag. is_tag tag ≡ true) release.tags
    pub sorted_tags : AllPairs TagBefore release.tags

  -- A release that passes validation has the schema's header, a date, a title and a description
  -- within their bounds, a payload whose files have distinct portable paths and add up to its
  -- size, trackers without credentials, and sorted tags.
  pub validate-IsRelease : (release : ReleaseV1) → validate x release ≡ ok tt → IsRelease release
  unfolding validate
  validate-IsRelease release e =
      let (h₁, e₁) = guard-eq-ok (bytes_eq release.schema release_schema) _ _ e in
      let (h₂, e₂) = guard-eq-ok (release.version == release_version) _ _ e₁ in
      let (h₃, e₃) = >>-eq-ok (validate_text "title" release.title 1 200) _ e₂ in
      let (h₄, e₄) = >>-eq-ok (validate_text "description" release.description 0 4000) _ e₃ in
      let (h₅, e₅) = guard-eq-ok (not (release.created_at == 0)) _ _ e₄ in
      let (h₆, h₇) = >>-eq-ok (validate_torrent x release.torrent) _ e₅ in
      let (few, good, sorted) = validate_tags-eq-ok release.tags h₇ in
      record {
        schema_is = (bytes_eq_iff release.schema release_schema).0 h₁;
        version_is = ground (arith, h₂);
        title_ok = (validate_text_iff "title" release.title 1 200).0 h₃;
        description_ok = (validate_text_iff "description" release.description 0 4000).0 h₄;
        dated = ground (arith, h₅);
        torrent_ok = validate_torrent-IsTorrent x release.torrent h₆;
        few_tags = few;
        good_tags = good;
        sorted_tags = sorted;
      }

  -- The identifier that a release should have.
  abbrev pub derived_id : ReleaseV1 → ReleaseId
  derived_id release =
      release_id_derive x release.publisher release.created_at release.torrent.info_hash

  the_id : Bytes → ReleaseId
  the_id bytes = record { bytes = bytes }

  read :
      (wire release : ReleaseV1)
      → try_from_wire x wire ≡ ok release
      → (release ≡ wire) × (validate x wire ≡ ok tt) × (wire.id ≡ derived_id wire)
  unfolding try_from_wire the_id
  read wire release e =
      let (valid, e₁) = >>-eq-ok (validate x wire) _ e in
      let (id, same) = guard-eq-ok (bytes_eq wire.id.bytes (derived_id wire).bytes) _ _ e₁ in
      let bytes_are = (bytes_eq_iff wire.id.bytes (derived_id wire).bytes).0 id in
      (ground arith, valid, ap the_id bytes_are)

  accepted :
      (wire release : ReleaseV1)
      → release ≡ wire
      → validate x wire ≡ ok tt
      → wire.id ≡ derived_id wire
      → try_from_wire x wire ≡ ok release
  unfolding try_from_wire
  accepted wire release same valid id =
      let equal : bytes_eq wire.id.bytes (derived_id wire).bytes ≡ true =
        (bytes_eq_iff wire.id.bytes (derived_id wire).bytes).1 (ap ReleaseId.bytes id) in
      rw (try_from_wire, valid, equal, same)

  pub try_from_wire-parts :
      (wire release : ReleaseV1)
      → (try_from_wire x wire ≡ ok release)
        ↔ ((release ≡ wire) × (validate x wire ≡ ok tt) × (wire.id ≡ derived_id wire))
  try_from_wire-parts wire release =
      (read wire release, λ (same, valid, id). accepted wire release same valid id)

  -- A release that is built passes validation, carries the publisher, time, title,
  -- description, payload and tags that it was given and the derived identifier, and is accepted when it is read back.
  pub new-try_from_wire :
      (publisher : PublisherId) (created_at : ℕ) (title description : Bytes) (torrent : TorrentV1)
      (tags : List Bytes) (release : ReleaseV1)
      → new x publisher created_at title description torrent tags ≡ ok release
      → (validate x release ≡ ok tt)
        × (release.publisher ≡ publisher)
        × (release.created_at ≡ created_at)
        × (release.title ≡ title)
        × (release.description ≡ description)
        × (release.torrent ≡ torrent)
        × (release.tags ≡ tags)
        × (release.id ≡ derived_id release)
        × (try_from_wire x release ≡ ok release)
  unfolding new accepts
  new-try_from_wire publisher created_at title description torrent tags release e =
      let (valid, same) = >>-eq-ok (validate x _) _ e in
      let release_is = ok_is _ release same in
      let valid' : validate x release ≡ ok tt = rw (← release_is) valid in
      let id_is : release.id ≡ derived_id release = rw (← release_is) refl in
      (
        valid',
        rw (← release_is) refl,
        rw (← release_is) refl,
        rw (← release_is) refl,
        rw (← release_is) refl,
        rw (← release_is) refl,
        rw (← release_is) refl,
        id_is,
        accepted release release refl valid' id_is,
      )
