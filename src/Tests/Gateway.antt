-- ===== src/Tests/Gateway.antt =====
-- The theorems on the stream gateway, with an engine that holds one torrent of one file.
use pubky_swarm.Base.Bytes.{bytes_eq}
use pubky_swarm.Gateway.Handler.{
  file_response, plain_error, serve_file, serve_range, stream_content, unsatisfiable_response,
}
use pubky_swarm.Base.Bytes.{contains, split_once, strip_prefix}
use pubky_swarm.Gateway.{
  check_ends, named_ends, parse_digits, parse_header, parse_some_digits, parse_u64,
}
use pubky_swarm.Base.{ℕ, ◌≡◌, ◌↔◌, refl, true, false, some, List, [], ◌∷◌, get_elem?}
use pubky_swarm.Base.Bytes.{Bytes, codes}
use pubky_swarm.Base.Result.{ok}
use pubky_swarm.Gateway.{ByteRange, parse_value, parse_range}
use pubky_swarm.Gateway.Range.{Asks, Granted, parse_value_iff}
use pubky_swarm.Gateway.Handler.{FileInfo, Engine, Request, stream_file}
use pubky_swarm.Gateway.Served.{is_success, Serves, stream_file-Serves}

abbrev file : FileInfo
file = record { path = codes "v.mp4"; length = 10 }

-- A header value is its text, and a hash is the text itself.
abbrev engine : Engine ℕ
engine = record {
  get = λ id. some id;
  metadata = λ _. ok (file ∷ []);
  stream_file = λ _ _. ok tt;
  seek = λ _ _ _. ok tt;
  hash = λ b. b;
  mime_type = λ _. codes "video/mp4";
  to_str = λ b. some b;
}

abbrev header : Bytes
header = codes "bytes=2-99"

abbrev asked : ByteRange
asked = record { start = 2; end = 9; partial = true }

abbrev request : Request
request = record {
  token = codes "t";
  torrent_id = 7;
  file_index = 0;
  is_head = false;
  range = some header;
}

parse_value_iff_example :
    (parse_value 10 header ≡ ok asked)
    ↔ ((a : ℕ) × (b : ℕ) × Asks 10 header a b × Granted 10 a b asked)
parse_value_iff_example = parse_value_iff 10 header asked

parsed : parse_range engine.to_str (some header) 10 ≡ ok asked
unfolding parse_range parse_header parse_value strip_prefix contains split_once named_ends parse_u64
    parse_some_digits parse_digits check_ends
parsed = refl

served : is_success (stream_file engine (codes "t") request).status ≡ true
unfolding stream_file bytes_eq serve_file serve_range parse_range parse_header parse_value
    strip_prefix contains split_once named_ends parse_u64 parse_some_digits parse_digits check_ends
    stream_content file_response plain_error unsatisfiable_response
served = refl

stream_file-Serves_example :
    (codes "t" ≡ codes "t")
    × ((torrent : ℕ) × (files : List FileInfo) × (file : FileInfo) × (engine.get 7 ≡ some torrent)
        × (engine.metadata torrent ≡ ok files)
        × (get_elem? files 0 ≡ some file)
        × Serves engine torrent request file (stream_file engine (codes "t") request))
stream_file-Serves_example = stream_file-Serves engine (codes "t") request served

abbrev secret : Bytes
secret = 171 ∷ 5 ∷ []
