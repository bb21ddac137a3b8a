-- ===== src/Tests/Artifact.antt =====
-- The theorems on torrent references and catalog artifacts, at a claim and a collection.
use pubky_swarm.Base.Bytes.{bytes_eq, bytes_lt, to_be_bytes}
use pubky_swarm.Base.Sort.{sort}
use pubky_swarm.Base.Utf8.{chars, decode_utf8, has_control, is_blank, is_control, is_whitespace}
use pubky_swarm.Protocol.Artifact.{
  is_ascending, no_id, validate_header, validate_source, validate_subjects, validate_tag,
  write_each, write_locator, write_provenance, write_publisher, write_source, write_string,
  write_subject, write_subjects, write_u64,
}
use pubky_swarm.Protocol.Ids.{info_hash_to_hex}
use pubky_swarm.Protocol.Portable.{validate_text}
use pubky_swarm.Protocol.Subject.{btmh_to_text, subject_key, subject_lt, torrent_key}
use mathlib.Core.List.{Perm}
use mathlib.Core.List.Perm
use pubky_swarm.Base.{◌<◌, ◌^◌, ◌≡◌, ◌↔◌, refl, List, [], ◌∷◌, ◌++◌, replicate, length, arith}
use pubky_swarm.Base.Bytes.{Bytes, IsBytes, codes}
use pubky_swarm.Base.Result.{ok}
use pubky_swarm.Protocol.Import.{TorrentRef, btih, verified_hybrid}
use pubky_swarm.Protocol.Subject.{
  SubjectRef, torrent, uri, direct, from_sha256, torrent_ref_to_text, torrent_ref_from_str,
}
use pubky_swarm.Protocol.Subject.RoundTrip.{IsTyped, torrent_ref_from_str_iff}
use pubky_swarm.Protocol.Artifact.{ArtifactId, derive}
use pubky_swarm.Protocol.Artifact.Claim.{TagClaimV1, add}
use pubky_swarm.Protocol.Artifact.Collection.{CollectionV1}
use pubky_swarm.Protocol.Artifact.Claim
use pubky_swarm.Protocol.Artifact.Collection
use pubky_swarm.Protocol.Artifact.Accepted.{
  tag_claim, Draft, claim_draft, artifact_id, IsArtifact, canonical_bytes, new, deserialize,
  deserialize_iff, new-deserialize,
}
use pubky_swarm.Protocol.Artifact.Fields.{IsInRange}
use pubky_swarm.Protocol.Artifact.Canonical.{canonical_bytes-injective}
use pubky_swarm.Protocol.Artifact.Subjects.{IsCanonical, new_collection-perm}
use pubky_swarm.Tests.Hex.{crates, crates-HexLaws}
use pubky_swarm.Tests.Sample.{publisher, info_hash}

abbrev hybrid : TorrentRef
hybrid = verified_hybrid info_hash (from_sha256 (replicate 32 1))

abbrev hybrid_text : Bytes
hybrid_text = torrent_ref_to_text crates hybrid

torrent_ref_from_str_iff_example :
    (torrent_ref_from_str crates hybrid_text ≡ ok hybrid)
    ↔ ((torrent_ref_to_text crates hybrid ≡ hybrid_text) × IsTyped hybrid)
torrent_ref_from_str_iff_example = torrent_ref_from_str_iff crates crates-HexLaws hybrid_text hybrid

abbrev unsigned : ArtifactId → TagClaimV1
unsigned id = record {
  schema = codes "pubky.swarm/tag-claim";
  version = 1;
  id = id;
  issuer = publisher;
  subject = torrent (btih info_hash);
  tag = codes "open-data";
  operation = add;
  created_at = 5;
  revision = 1;
  source = direct;
}

abbrev blank : ArtifactId
blank = record { bytes = replicate 32 0 }

abbrev claim : TagClaimV1
claim = unsigned (derive crates (Claim.to_canonical_bytes crates (unsigned blank)))

abbrev draft : Draft
draft = claim_draft publisher (torrent (btih info_hash)) (codes "open-data") add 5 1 direct

claim_made : new crates draft ≡ ok (tag_claim claim)
unfolding new Claim.new Claim.validate validate_header bytes_eq Claim.schema_name validate_tag
    validate_source no_id
claim_made = refl

deserialize_iff_example : (deserialize crates (tag_claim claim) ≡ ok (tag_claim claim)) ↔ (
    (tag_claim claim ≡ tag_claim claim)
    × IsArtifact (tag_claim claim)
    × (artifact_id (tag_claim claim) ≡ derive crates (canonical_bytes crates (tag_claim claim))))
deserialize_iff_example = deserialize_iff crates (tag_claim claim) (tag_claim claim)

new-deserialize_example : deserialize crates (tag_claim claim) ≡ ok (tag_claim claim)
new-deserialize_example = new-deserialize crates draft (tag_claim claim) claim_made

info_hash_bytes : IsBytes info_hash.bytes
info_hash_bytes = ground arith

in_range : IsInRange (tag_claim claim)
in_range = (refl, (refl, info_hash_bytes), omega arith, (omega arith, omega arith, tt))

canonical_bytes-injective_example : tag_claim claim ≡ tag_claim claim
canonical_bytes-injective_example =
    canonical_bytes-injective crates crates-HexLaws (tag_claim claim) (tag_claim claim) in_range
      in_range new-deserialize_example new-deserialize_example refl

abbrev first_subject : SubjectRef
first_subject = torrent (btih info_hash)

abbrev second_subject : SubjectRef
second_subject = uri (record { text = codes "https://example.org/a" })

abbrev listed : ArtifactId → CollectionV1
listed id = record {
  schema = codes "pubky.swarm/collection";
  version = 1;
  id = id;
  issuer = publisher;
  title = codes "Maps";
  description = [];
  subjects = first_subject ∷ second_subject ∷ [];
  created_at = 5;
  revision = 2;
  source = direct;
}

abbrev pub maps : CollectionV1
maps = listed (derive crates (Collection.to_canonical_bytes crates (listed blank)))

maps_made :
    Collection.new crates publisher
      (codes "Maps")
      []
      (second_subject ∷ first_subject ∷ [])
      5
      2
      direct
    ≡ ok maps
unfolding Collection.new Collection.validate validate_header bytes_eq Collection.schema_name
    validate_text chars is_blank has_control validate_subjects sort subject_lt subject_key bytes_lt
    is_ascending validate_source no_id to_be_bytes pubky_swarm.Base.Sort.insert decode_utf8
    is_control is_whitespace Collection.prefix Collection.to_canonical_bytes derive write_each
    write_locator write_provenance write_publisher write_source write_string write_subject
    write_subjects write_u64 info_hash_to_hex btmh_to_text torrent_key torrent_ref_to_text
maps_made = refl

new_collection-perm_example :
    (Collection.new crates publisher
        (codes "Maps")
        []
        (first_subject ∷ second_subject ∷ [])
        5
        2
        direct
      ≡ ok maps)
    × IsCanonical maps.subjects
    × Perm maps.subjects (second_subject ∷ first_subject ∷ [])
new_collection-perm_example =
    new_collection-perm crates publisher (codes "Maps") [] (second_subject ∷ first_subject ∷ [])
      (first_subject ∷ second_subject ∷ []) 5 2 direct maps
      (Perm.swap first_subject second_subject []) maps_made
