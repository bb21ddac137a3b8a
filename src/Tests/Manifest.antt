-- ===== src/Tests/Manifest.antt =====
-- The theorems on manifests, paths and identifiers, at the sample manifest.
use pubky_swarm.Base.Bytes.{contains, to_be_bytes}
use pubky_swarm.Base.Paths.{components, is_absolute, join}
use pubky_swarm.Base.Utf8.{has_control}
use pubky_swarm.Protocol.Manifest.{follows, objects_from}
use pubky_swarm.Protocol.Manifest.Codec.{manifest_prefix, write_object, write_objects}
use pubky_swarm.Protocol.Portable.{ends_with, is_unportable, is_windows_reserved_name}
use pubky_swarm.Base.{◌≡◌, ◌↔◌, refl, true, some, [], ◌∷◌, ◌++◌, replicate, arith, ltb, all}
use pubky_swarm.Base.Bytes.{Bytes, codes, IsBytes, starts_with, bytes_eq, bytes_lt}
use pubky_swarm.Base.Sort.{sort, insert}
use pubky_swarm.Base.Utf8.{is_utf8}
use pubky_swarm.Base.Result.{ok}
use pubky_swarm.Protocol.Ids.{ReleaseId, ObjectDigest, ManifestDigest}
use pubky_swarm.Protocol.Portable.{validate_portable_path}
use pubky_swarm.Protocol.Portable.Spec.{validate_portable_path_iff, IsPortablePath}
use pubky_swarm.Protocol.Manifest.{
  ManifestObjectV1, manifest_schema, validate, object, new, path_lt,
}
use pubky_swarm.Protocol.Manifest.Codec.{to_canonical_bytes, from_canonical_bytes}
use pubky_swarm.Protocol.Manifest.RoundTrip.{IsTyped, IsTypedObject, from-to_canonical_bytes}
use pubky_swarm.Protocol.Manifest.Canonical.{to-from_canonical_bytes}
use pubky_swarm.Protocol.Manifest.Lookup.{object_iff, Declared}
use pubky_swarm.Protocol.Manifest.Collisions.{hidden_collision, three, dashed, inside}
use pubky_swarm.Tests.Hex.{crates}
use pubky_swarm.Tests.Sample.{manifest, first_object, second_object, publisher, object_of}

all-IsBytes : (b : Bytes) → all (λ c. ltb c 256) b ≡ true → IsBytes b
all-IsBytes [] h = tt
all-IsBytes (c ∷ b) h = (ground arith, all-IsBytes b (ground arith))

manifest-valid : validate manifest ≡ ok tt
unfolding validate bytes_eq manifest_schema objects_from validate_portable_path is_absolute
    components join is_unportable contains has_control ends_with is_windows_reserved_name follows
    bytes_lt starts_with
manifest-valid = refl

first-IsTypedObject : IsTypedObject first_object
unfolding is_utf8
first-IsTypedObject = record {
  path_text = refl;
  path_bytes = (omega arith, tt);
  path_length = omega arith;
  size_range = omega arith;
  digest_array = (refl, all-IsBytes first_object.digest.bytes refl);
}

second-IsTypedObject : IsTypedObject second_object
unfolding is_utf8
second-IsTypedObject = record {
  path_text = refl;
  path_bytes = all-IsBytes second_object.path refl;
  path_length = omega arith;
  size_range = omega arith;
  digest_array = (refl, all-IsBytes second_object.digest.bytes refl);
}

manifest-IsTyped : IsTyped crates manifest
manifest-IsTyped = record {
  key_array = (refl, all-IsBytes manifest.publisher.key refl);
  key_valid = refl;
  created_range = omega arith;
  typed_objects = (first-IsTypedObject, (second-IsTypedObject, tt));
}

from-to_canonical_bytes_example :
    from_canonical_bytes crates (to_canonical_bytes manifest) ≡ ok manifest
from-to_canonical_bytes_example =
    from-to_canonical_bytes crates manifest manifest-IsTyped manifest-valid

canonical-IsBytes : IsBytes (to_canonical_bytes manifest)
unfolding to_canonical_bytes manifest_prefix to_be_bytes write_objects write_object
canonical-IsBytes = all-IsBytes (to_canonical_bytes manifest) refl

to-from_canonical_bytes_example :
    (to_canonical_bytes manifest ≡ to_canonical_bytes manifest)
    × (validate manifest ≡ ok tt)
    × IsTyped crates manifest
to-from_canonical_bytes_example =
    to-from_canonical_bytes crates (to_canonical_bytes manifest) manifest canonical-IsBytes
      (from-to_canonical_bytes crates manifest manifest-IsTyped manifest-valid)

object_iff_example :
    (object manifest (codes "b/c") ≡ some second_object)
    ↔ (Declared manifest second_object × (codes "b/c" ≡ codes "b/c"))
object_iff_example = object_iff manifest (codes "b/c") second_object manifest-valid

built : new publisher 5 (second_object ∷ first_object ∷ []) ≡ ok manifest
unfolding new validate bytes_eq manifest_schema sort path_lt bytes_lt objects_from
    validate_portable_path is_absolute components join is_unportable contains has_control ends_with
    is_windows_reserved_name starts_with follows insert
built = refl

validate_portable_path_iff_example :
    (validate_portable_path (codes "b/c") ≡ ok tt) ↔ IsPortablePath (codes "b/c")
validate_portable_path_iff_example = validate_portable_path_iff (codes "b/c")

abbrev file_p : ManifestObjectV1
file_p = object_of (codes "p") []

abbrev file_dash : ManifestObjectV1
file_dash = object_of (codes "p-") []

abbrev file_inside : ManifestObjectV1
file_inside = object_of (codes "p/q") []

dash_is : codes "p-" ≡ dashed (codes "p")
dash_is = refl

inside_is : codes "p/q" ≡ inside (codes "p") (codes "q")
inside_is = refl

p-portable : validate_portable_path (codes "p") ≡ ok tt
unfolding validate_portable_path bytes_eq is_absolute components join is_unportable contains
    has_control ends_with is_windows_reserved_name
p-portable = refl

dash-portable : validate_portable_path (codes "p-") ≡ ok tt
unfolding validate_portable_path bytes_eq is_absolute components join is_unportable contains
    has_control ends_with is_windows_reserved_name
dash-portable = refl

inside-portable : validate_portable_path (codes "p/q") ≡ ok tt
unfolding validate_portable_path bytes_eq is_absolute components join is_unportable contains
    has_control ends_with is_windows_reserved_name
inside-portable = refl

hidden_collision_example :
    (validate (three publisher 5 file_p file_dash file_inside) ≡ ok tt)
    × (starts_with (codes "p" ++ codes "/") (codes "p/q") ≡ true)
hidden_collision_example =
    hidden_collision publisher 5 file_p file_dash file_inside (codes "q") (omega arith) dash_is
      inside_is p-portable dash-portable inside-portable

abbrev release_id : ReleaseId
release_id = record { bytes = replicate 16 171 }

abbrev object_digest : ObjectDigest
object_digest = record { bytes = replicate 32 18 }

abbrev manifest_digest : ManifestDigest
manifest_digest = record { bytes = replicate 32 255 }
