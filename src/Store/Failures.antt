-- ===== src/Store/Failures.antt =====
-- crates/swarm-store/src/lib.rs: `enum Error`, with the failures of SQLite that the tables of the
-- store can cause.
use Prim.Native.String.{String}
use pubky_swarm.Base.{ℕ}
use pubky_swarm.Base.Int.{ℤ}
use pubky_swarm.Protocol.Error.{Error as ProtocolError}

pub data SqliteError : Type 0 where
  -- A `u64` that a parameter cannot hold.
  out_of_range : SqliteError
  check_failed : SqliteError
  unique_failed : SqliteError
  foreign_key_failed : SqliteError
  table_exists : SqliteError
  query_returned_no_rows : SqliteError

pub data Error : Type 0 where
  sqlite : SqliteError → Error
  json : Error
  protocol : ProtocolError → Error
  lock_poisoned : Error
  invalid_system_time : Error
  invalid_publisher : Error
  invalid_authority_sequence : Error
  invalid_catalog_name : Error
  catalog_source_limit : Error
  built_in_catalog_source : Error
  -- The error of `validate_source_url`.
  catalog : Error
  invalid_client_settings : String → Error
  unsupported_schema : ℤ → ℕ → Error
