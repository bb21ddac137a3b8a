-- ===== src/Dataset/Error.antt =====
-- crates/dataset-core/src/lib.rs: `enum Error`.
use Prim.Native.String.{String}
use pubky_swarm.Base.{ℕ, Option}
use pubky_swarm.Base.Bytes.{Bytes}
use pubky_swarm.Protocol.Error as Wire
use pubky_swarm.Protocol.Ids.{PublisherId, ManifestDigest}

pub data Error : Type 0 where
  protocol : Wire.Error → Error
  integrity : Bytes → String → Error
  missing_object : Bytes → Error
  unexpected_object : Bytes → Error
  duplicate_object : Bytes → Error
  invalid_sequence : ℕ → Error
  sequence_exhausted : Error
  rollback : ℕ → ℕ → Error
  conflicting_head : ℕ → Error
  publisher_mismatch : PublisherId → PublisherId → Error
  concurrent_update : Option ManifestDigest → Option ManifestDigest → Error
  watch_closed : Error
  transport : String → Error
  lock_poisoned : Error
