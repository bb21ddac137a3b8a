-- ===== src/Protocol/Error.antt =====
-- crates/swarm-protocol/src/lib.rs: `enum Error` and `invalid_field`. The text of a reason that
-- the source formats is a constructor with the values that it shows.
use Prim.Native.String.{String}
use pubky_swarm.Base.{ℕ}
use pubky_swarm.Base.Bytes.{Bytes}
use pubky_swarm.Base.Result.{Result, err}

pub data Reason : Type 0 where
  says : String → Reason
  expected_characters : ℕ → ℕ → ℕ → Reason
  expected_hexadecimal : ℕ → ℕ → Reason
  expected_bytes : ℕ → ℕ → Reason
  -- The text of an error of another crate.
  foreign : Reason
  maximum_objects : ℕ → Reason
  expected_observations : ℕ → Reason
  expected_subjects : ℕ → Reason
  portable_key : ℕ → Reason
  not_canonical : Bytes → Reason

pub data Error : Type 0 where
  invalid_info_hash : Reason → Error
  invalid_publisher : Reason → Error
  invalid_release_id : Reason → Error
  invalid_field : String → Reason → Error
  invalid_path : Bytes → String → Error
  size_mismatch : ℕ → ℕ → Error
  invalid_object_digest : Reason → Error
  invalid_manifest_digest : Reason → Error
  invalid_canonical_bytes : String → Error
  unknown_object : Bytes → Error
  object_mismatch : Bytes → String → Error
  -- The errors that `Deserialize` makes by `serde::de::Error::custom`.
  custom : String → Error
  custom_of : Error → Error

abbrev pub field_err {ℓ} : {A : Type ℓ} → String → String → Result Error A
field_err f r = err (invalid_field f (says r))
