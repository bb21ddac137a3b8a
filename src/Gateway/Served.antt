-- ===== src/Gateway/Served.antt =====
-- What a reply that carries a file shows of the request, and the text of the capability.
use pubky_swarm.Base.{
  ℕ, zero, suc, ◌+◌, ◌-◌, ◌*◌, ◌/◌, ◌%◌, ◌<◌, ◌≡◌, refl, Bool, true, false, ◌⊎◌, inl, inr, none,
  some, List, [], ◌∷◌, if◌then◌else◌, get_elem?, Bool-cases, Option-cases, arith, length, All,
}
use pubky_swarm.Base.Bytes.{Bytes, codes, bytes_eq, bytes_eq_iff, IsBytes}
use pubky_swarm.Base.Result.{ok, Result-cases}
use pubky_swarm.Protocol.Crates.{is_lower_hex}
use pubky_swarm.Gateway.{ByteRange, parse_range}
use pubky_swarm.Gateway.Range.{Within, parse_range-Within}
use pubky_swarm.Gateway.Asked.{IsAsked, parse_range-IsAsked}
use pubky_swarm.Gateway.Handler.{
  StatusCode, success, partial_content, Body, no_body, content, satisfied, Response, FileInfo,
  Engine, Request, plain_error, file_response, unsatisfiable_response, stream_content, serve_range,
  serve_file, stream_file, hex_digit, hex_encode,
}

-- The two statuses of a reply that carries a file.
abbrev pub is_success : StatusCode → Bool
is_success success = true
is_success partial_content = true
is_success _ = false

-- The body of a reply for a range: none for HEAD, else the bytes of the range.
abbrev pub body_of : Request → ByteRange → Body
body_of request range =
    if request.is_head
    then no_body
    else content request.file_index range.start (range.end - range.start + 1)

-- Part of a file is status 206 with the range, and the whole file is status 200 without one.
abbrev pub IsMarked : ByteRange → ℕ → Response → Type 0
IsMarked range length response =
    ((range.partial ≡ true)
      × (response.status ≡ partial_content)
      × (response.content_range ≡ some (satisfied range.start range.end length)))
    ⊎ ((range.partial ≡ false) × (response.status ≡ success) × (response.content_range ≡ none))

module _ {T : Type 0} (engine : Engine T) where
  -- A reply that carries the range of a file of a torrent: `count` bytes from the first to the last.
  pub record Serves (torrent : T) (request : Request) (file : FileInfo) (response : Response)
      : Type 0 where
    pub range : ByteRange
    pub parsed : parse_range engine.to_str request.range file.length ≡ ok range
    pub asked : IsAsked engine.to_str request.range file.length range
    pub within : Within file.length range
    pub count : ℕ
    pub counted : range.start + count ≡ range.end + 1
    pub marked : IsMarked range file.length response
    pub accepts_ranges : response.accept_ranges ≡ true
    pub length_is : response.content_length ≡ some count
    pub type_is : response.content_type ≡ engine.mime_type file.path
    pub head_is : request.is_head ≡ true → response.body ≡ no_body
    pub body_is :
        request.is_head ≡ false → response.body ≡ content request.file_index range.start count

  -- The same in the terms of the handler.
  record IsReply (torrent : T) (request : Request) (file : FileInfo) (response : Response)
      : Type 0 where
    range : ByteRange
    parsed : parse_range engine.to_str request.range file.length ≡ ok range
    within : Within file.length range
    replied : response ≡ file_response engine file range (body_of request range)

  stream_content-body :
      (torrent : T) (request : Request) (file : FileInfo) (range : ByteRange)
      → is_success (stream_content engine torrent request.file_index file range).status ≡ true
      → stream_content engine torrent request.file_index file range
        ≡ file_response engine file range
            (content request.file_index range.start (range.end - range.start + 1))
  unfolding stream_content plain_error
  stream_content-body torrent request file range h =
      elim (Result-cases (engine.stream_file torrent request.file_index)) [
        | inr (e, f) ↦ cc (rw (stream_content, f) at h)
        | inl (_, f) ↦ elim (Result-cases (engine.seek torrent request.file_index range.start)) [
          | inr (e, g) ↦ cc (rw (stream_content, f, g) at h)
          | inl (_, g) ↦ rw (stream_content, f, g)
        ]
      ]

  file_response-IsMarked :
      (file : FileInfo) (range : ByteRange) (body : Body)
      → IsMarked range file.length (file_response engine file range body)
  unfolding file_response
  file_response-IsMarked file range body = elim (Bool-cases range.partial) [
    | inl k ↦ inl (k, rw k refl, rw k refl)
    | inr k ↦ inr (k, rw k refl, rw k refl)
  ]

  IsReply-Serves :
      (torrent : T) (request : Request) (file : FileInfo) (response : Response)
      → IsReply torrent request file response
      → Serves torrent request file response
  unfolding file_response
  IsReply-Serves torrent request file response h =
      let range = h.range in
      let replied = h.replied in
      record {
        range = range;
        parsed = h.parsed;
        asked = parse_range-IsAsked engine.to_str request.range file.length range h.parsed;
        within = h.within;
        count = range.end - range.start + 1;
        counted = omega (arith, h.within.0);
        marked = rw replied (file_response-IsMarked file range (body_of request range));
        accepts_ranges = rw replied refl;
        length_is = rw replied refl;
        type_is = rw replied refl;
        head_is = λ head. rw (replied, head) refl;
        body_is = λ get. rw (replied, get) refl;
      }

  serve_range-IsReply :
      (torrent : T) (request : Request) (file : FileInfo)
      → is_success (serve_range engine torrent request file).status ≡ true
      → IsReply torrent request file (serve_range engine torrent request file)
  unfolding serve_range unsatisfiable_response plain_error
  serve_range-IsReply torrent request file h =
      elim (Result-cases (parse_range engine.to_str request.range file.length)) [
        | inr (e, f) ↦ cc (rw (serve_range, f) at h)
        | inl (range, f) ↦ elim (Bool-cases request.is_head) [
          | inl head ↦ record {
            range = range;
            parsed = f;
            within = (parse_range-Within engine.to_str request.range file.length range f).0;
            replied = rw (serve_range, f, head);
          }
          | inr get ↦ record {
            range = range;
            parsed = f;
            within = (parse_range-Within engine.to_str request.range file.length range f).0;
            replied =
                rw (serve_range, f, get)
                  (stream_content-body torrent request file range (rw (serve_range, f, get) at h));
          }
        ]
      ]

  serve_file-Serves :
      (torrent : T) (request : Request)
      → is_success (serve_file engine torrent request).status ≡ true
      → (files : List FileInfo) × (file : FileInfo) × (engine.metadata torrent ≡ ok files)
        × (get_elem? files request.file_index ≡ some file)
        × Serves torrent request file (serve_file engine torrent request)
  unfolding serve_file plain_error
  serve_file-Serves torrent request h = elim (Result-cases (engine.metadata torrent)) [
    | inr (e, f) ↦ cc (rw (serve_file, f) at h)
    | inl (files, f) ↦ elim (Option-cases (get_elem? files request.file_index)) [
      | inl g ↦ cc (rw (serve_file, f, g) at h)
      | inr (file, g) ↦
          let served =
            IsReply-Serves torrent request file (serve_range engine torrent request file)
              (serve_range-IsReply torrent request file (rw (serve_file, f, g) at h)) in
          (files, file, f, g, rw (serve_file, f, g) served)
    ]
  ]

  -- A reply with status 200 or 206 is given only for a token that hashes to the gateway's, for a
  -- file that the engine's metadata of the torrent lists, and it carries the range that the request
  -- asks for, or the whole file when there is no header, which lies inside the file. Its length header is the number of bytes from the
  -- range's start to its end, both included, and its body is that many bytes of the file from the
  -- start on, or nothing for HEAD; its type is the engine's guess for the file's path, it accepts
  -- ranges, and it has status 206 and the range with the file's length when the range is partial,
  -- else status 200 and no range.
  pub stream_file-Serves :
      (token_hash : Bytes) (request : Request)
      → is_success (stream_file engine token_hash request).status ≡ true
      → (engine.hash request.token ≡ token_hash)
        × ((torrent : T) × (files : List FileInfo) × (file : FileInfo) × (engine.get
                request.torrent_id
              ≡ some torrent)
            × (engine.metadata torrent ≡ ok files)
            × (get_elem? files request.file_index ≡ some file)
            × Serves torrent request file (stream_file engine token_hash request))
  unfolding stream_file plain_error
  stream_file-Serves token_hash request h =
      elim (Bool-cases (bytes_eq (engine.hash request.token) token_hash)) [
        | inr wrong ↦ cc (rw (stream_file, wrong) at h)
        | inl right ↦ elim (Option-cases (engine.get request.torrent_id)) [
          | inl f ↦ cc (rw (stream_file, right, f) at h)
          | inr (torrent, f) ↦
              let (files, file, g, k, served) =
                serve_file-Serves torrent request (rw (stream_file, right, f) at h) in
              (
                (bytes_eq_iff (engine.hash request.token) token_hash).0 right,
                (torrent, files, file, f, g, k, rw (stream_file, right, f) served),
              )
        ]
      ]

get_elem?-All :
    (P : ℕ → Type 0) (xs : List ℕ) (i : ℕ)
    → All P xs
    → i < length xs
    → (x : ℕ) × (get_elem? xs i ≡ some x) × P x
get_elem?-All P [] i h k = ground arith
get_elem?-All P (x ∷ xs) zero (h, hs) k = (x, refl, h)
get_elem?-All P (x ∷ xs) (suc i) (h, hs) k = get_elem?-All P xs i hs (omega (arith, k))

IsHex : ℕ → Type 0
IsHex d = is_lower_hex d ≡ true

digits_are-IsHex : All IsHex (codes "0123456789abcdef")
unfolding IsHex
digits_are-IsHex = (
  refl,
  (
    refl,
    (
      refl,
      (
        refl,
        (
          refl,
          (
            refl,
            (refl, (refl, (refl, (refl, (refl, (refl, (refl, (refl, (refl, (refl, tt)))))))))),
          ),
        ),
      ),
    ),
  ),
)

hex_digit-some : (i : ℕ) → i < 16 → (d : ℕ) × (hex_digit i ≡ some d) × (is_lower_hex d ≡ true)
unfolding hex_digit IsHex
hex_digit-some i h = get_elem?-All IsHex (codes "0123456789abcdef") i digits_are-IsHex h

-- The text of a secret never panics, and is two lowercase hex digits a byte.
pub hex_encode-some :
    (bytes : Bytes)
    → IsBytes bytes
    → (text : Bytes) × (hex_encode bytes ≡ some text)
      × (length text ≡ 2 * length bytes)
      × All (λ d. is_lower_hex d ≡ true) text
unfolding hex_encode
hex_encode-some [] h = ([], refl, refl, tt)
hex_encode-some (b ∷ bs) (k, h) =
    let (high, e₁, l₁) = hex_digit-some (b / 16) (omega arith) in
    let (low, e₂, l₂) = hex_digit-some (b % 16) (omega arith) in
    let (rest, e₃, n, l₃) = hex_encode-some bs h in
    (high ∷ low ∷ rest, rw (hex_encode, e₁, e₂, e₃) refl, omega (arith, n), (l₁, (l₂, l₃)))
