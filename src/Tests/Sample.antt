-- ===== src/Tests/Sample.antt =====
-- A manifest of two objects and what it is built from.
use pubky_swarm.Base.{[], ◌∷◌, replicate, length}
use pubky_swarm.Base.Bytes.{Bytes, codes}
use pubky_swarm.Protocol.Ids.{PublisherId, InfoHashV1}
use pubky_swarm.Protocol.Manifest.{ManifestObjectV1, DatasetManifestV1}
use pubky_swarm.Dataset.Memory.{Publication}
use pubky_swarm.Tests.Hex.{toy_hash}

abbrev pub publisher : PublisherId
publisher = record { key = replicate 32 7 }

abbrev pub first_bytes : Bytes
first_bytes = 1 ∷ 2 ∷ 3 ∷ []

abbrev pub second_bytes : Bytes
second_bytes = 4 ∷ []

abbrev pub object_of : Bytes → Bytes → ManifestObjectV1
object_of path bytes = record {
  path = path;
  size = length bytes;
  digest = record { bytes = toy_hash bytes };
}

abbrev pub first_object : ManifestObjectV1
first_object = object_of (codes "a") first_bytes

abbrev pub second_object : ManifestObjectV1
second_object = object_of (codes "b/c") second_bytes

abbrev pub manifest : DatasetManifestV1
manifest = record {
  schema = codes "pubky.swarm/dataset-manifest";
  version = 1;
  publisher = publisher;
  created_at = 5;
  objects = first_object ∷ second_object ∷ [];
}

abbrev pub publication : Publication
publication = record {
  created_at = 5;
  objects = (codes "a", first_bytes) ∷ (codes "b/c", second_bytes) ∷ [];
}

abbrev pub info_hash : InfoHashV1
info_hash = record { bytes = replicate 20 9 }
