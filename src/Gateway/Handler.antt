-- ===== src/Gateway/Handler.antt =====
-- crates/stream-gateway/src/lib.rs: the handler `stream_file` and `hex_encode`. The torrent engine
-- and the crates that the handler calls are parameters.
use pubky_swarm.Base.{
  ℕ, ◌+◌, ◌-◌, ◌/◌, ◌%◌, Bool, true, false, not, Option, none, some, List, [], ◌∷◌, if◌then◌else◌,
  get_elem?,
}
use pubky_swarm.Base.Bytes.{Bytes, codes, bytes_eq}
use pubky_swarm.Base.Result.{Result, ok, err}
use pubky_swarm.Gateway.{Reason, ByteRange, ToStr, parse_range}

pub data StatusCode : Type 0 where
  success : StatusCode
  partial_content : StatusCode
  unauthorized : StatusCode
  not_found : StatusCode
  conflict : StatusCode
  range_not_satisfiable : StatusCode
  internal_server_error : StatusCode

pub data Message : Type 0 where
  invalid_capability : Message
  unknown_torrent : Message
  unknown_file : Message
  unsatisfiable : Reason → Message
  engine_error : Bytes → Message

-- The `Content-Range` header: `bytes {start}-{end}/{length}` or `bytes */{length}`.
pub data ContentRange : Type 0 where
  satisfied : ℕ → ℕ → ℕ → ContentRange
  unsatisfied : ℕ → ContentRange

-- A body: none, a text, or so many bytes of a file from an offset on.
pub data Body : Type 0 where
  no_body : Body
  text : Message → Body
  content : (file_index start length : ℕ) → Body

pub record Response : Type 0 where
  pub status : StatusCode
  pub accept_ranges : Bool
  pub content_length : Option ℕ
  pub content_type : Bytes
  pub content_range : Option ContentRange
  pub body : Body

-- What the handler reads of a file of the engine's metadata.
pub record FileInfo : Type 0 where
  pub path : Bytes
  pub length : ℕ

-- The calls of the torrent engine, with the text of an error, and of the other crates.
pub record Engine (T : Type 0) : Type 0 where
  pub get : ℕ → Option T
  pub metadata : T → Result Bytes (List FileInfo)
  pub stream_file : T → ℕ → Result Bytes (Unit {0})
  pub seek : T → ℕ → ℕ → Result Bytes (Unit {0})
  pub hash : Bytes → Bytes
  pub mime_type : Bytes → Bytes
  pub to_str : ToStr

pub record Request : Type 0 where
  pub token : Bytes
  pub torrent_id : ℕ
  pub file_index : ℕ
  pub is_head : Bool
  pub range : Option Bytes

unfoldable pub plain_error : StatusCode → Message → Response
plain_error status message = record {
  status = status;
  accept_ranges = false;
  content_length = none;
  content_type = codes "text/plain; charset=utf-8";
  content_range = none;
  body = text message;
}

module _ {T : Type 0} (engine : Engine T) where
  -- The response builder, before its body.
  unfoldable pub file_response : FileInfo → ByteRange → Body → Response
  file_response file range body = record {
    status = if range.partial then partial_content else success;
    accept_ranges = true;
    content_length = some (range.end - range.start + 1);
    content_type = engine.mime_type file.path;
    content_range =
        if range.partial then some (satisfied range.start range.end file.length) else none;
    body = body;
  }

  unfoldable pub unsatisfiable_response : FileInfo → Reason → Response
  unfolding plain_error
  unsatisfiable_response file message =
      let response = plain_error range_not_satisfiable (unsatisfiable message) in
      record {
        status = response.status;
        accept_ranges = response.accept_ranges;
        content_length = response.content_length;
        content_type = response.content_type;
        content_range = some (unsatisfied file.length);
        body = response.body;
      }

  -- From `torrent.stream_file` on.
  unfoldable pub stream_content : T → ℕ → FileInfo → ByteRange → Response
  stream_content torrent file_index file range = elim (engine.stream_file torrent file_index) [
    | err error ↦ plain_error conflict (engine_error error)
    | ok _ ↦ elim (engine.seek torrent file_index range.start) [
      | err error ↦ plain_error internal_server_error (engine_error error)
      | ok _ ↦
          file_response file range (content file_index range.start (range.end - range.start + 1))
    ]
  ]

  -- From `parse_range` on.
  unfoldable pub serve_range : T → Request → FileInfo → Response
  serve_range torrent request file = elim (parse_range engine.to_str request.range file.length) [
    | err message ↦ unsatisfiable_response file message
    | ok range ↦
        if request.is_head
        then file_response file range no_body
        else stream_content torrent request.file_index file range
  ]

  -- From `torrent.metadata` on.
  unfoldable pub serve_file : T → Request → Response
  serve_file torrent request = elim (engine.metadata torrent) [
    | err error ↦ plain_error conflict (engine_error error)
    | ok files ↦ elim (get_elem? files request.file_index) [
      | none ↦ plain_error not_found unknown_file
      | some file ↦ serve_range torrent request file
    ]
  ]

  -- `token_hash` is the gateway's state.
  unfoldable pub stream_file : Bytes → Request → Response
  stream_file token_hash request =
      if not (bytes_eq (engine.hash request.token) token_hash)
      then plain_error unauthorized invalid_capability
      else elim (engine.get request.torrent_id) [
        | none ↦ plain_error not_found unknown_torrent
        | some torrent ↦ serve_file torrent request
      ]

-- `HEX[i]`, with the panic as `none`.
unfoldable pub hex_digit : ℕ → Option ℕ
hex_digit i = get_elem? (codes "0123456789abcdef") i

-- The loop over the bytes of the secret.
unfoldable pub hex_encode : Bytes → Option Bytes
hex_encode [] = some []
hex_encode (byte ∷ bytes) = elim (hex_digit (byte / 16)) [
  | none ↦ none
  | some high ↦ elim (hex_digit (byte % 16)) [
    | none ↦ none
    | some low ↦ elim (hex_encode bytes) [ none ↦ none | some rest ↦ some (high ∷ low ∷ rest) ]
  ]
]
