-- ===== src/CatalogClient.antt =====
-- crates/catalog-client/src/lib.rs: the kinds of source and the check of a source's endpoint.
pub mod Item
pub mod Feed
pub mod Search
use Prim.Native.String.{String}
use pubky_swarm.Base.{
  ℕ, Bool, true, false, not, ◌||◌, Option, none, some, [], ◌∷◌, map, any, leb, if◌then◌else◌,
  length,
}
use pubky_swarm.Base.Bytes.{Bytes, codes, bytes_eq, lower_byte}
use pubky_swarm.Base.Result.{Result, ok, err, ◌>>=◌, ◌>>◌, guard, ok_or}
use pubky_swarm.Protocol.Crates.{Url}

pub data SourceKind : Type 0 where
  rss torznab : SourceKind

pub data Error : Type 0 where
  invalid_kind query_too_long invalid_api_key : Error
  invalid_url : String → Error
  -- The text of the URL parser's error.
  unparsed_url : Error

abbrev pub max_sources : ℕ
max_sources = 32

unfoldable pub kind_text : SourceKind → Bytes
kind_text rss = codes "rss"
kind_text torznab = codes "torznab"

unfoldable pub kind_from_str : Bytes → Result Error SourceKind
kind_from_str value =
    if bytes_eq value (codes "rss")
    then ok rss
    else if bytes_eq value (codes "torznab")
    then ok torznab
    else err invalid_kind

-- A parsed URL with its `host_str`.
pub record WebUrl : Type 0 where
  pub url : Url
  pub host : Option Bytes

pub record Web : Type 0 where
  pub parse : Bytes → Option WebUrl
  -- Whether a host that is the text of an IP address is a loopback one.
  pub ip_is_loopback : Bytes → Option Bool

is_present : Option Bytes → Bool
is_present none = false
is_present (some _) = true

-- `name` in any case is the name of a credential.
unfoldable pub is_credential : Bytes → Bool
is_credential name =
    any (bytes_eq (map lower_byte name))
      (codes "apikey" ∷ codes "api_key" ∷ codes "token" ∷ codes "access_token" ∷ codes "key" ∷ [])

module _ (web : Web) where
  -- `host.parse::<IpAddr>().is_ok_and(|address| address.is_loopback())`.
  loopback_address : Bytes → Bool
  loopback_address host = elim (web.ip_is_loopback host) [ none ↦ false | some loopback ↦ loopback ]

  unfoldable pub is_loopback_host : Option Bytes → Bool
  unfolding loopback_address
  is_loopback_host none = false
  is_loopback_host (some host) =
      bytes_eq (map lower_byte host) (codes "localhost") || loopback_address host

  -- The test of the last check: the host is an address other than a loopback one.
  unfoldable pub is_remote_address : Option Bytes → Bool
  is_remote_address none = false
  is_remote_address (some host) = elim (web.ip_is_loopback host) [
    | none ↦ false
    | some loopback ↦ not loopback
  ]

  -- The `match` on the scheme.
  unfoldable pub check_scheme : Bytes → Bool → Result Error (Unit {0})
  check_scheme scheme loopback =
      if bytes_eq scheme (codes "https")
      then ok tt
      else if bytes_eq scheme (codes "http")
      then guard loopback (invalid_url "remote catalog sources require HTTPS")
      else err (invalid_url "URL scheme must be HTTP or HTTPS")

  unfoldable pub validate_source_url : Bytes → Result Error WebUrl
  unfolding is_present
  validate_source_url value = do
    guard (leb (length value) 2048) (invalid_url "URL exceeds 2048 bytes")
    parsed ← ok_or (web.parse value) unparsed_url
    guard (not (parsed.url.cannot_be_a_base || not (is_present parsed.host)))
        (invalid_url "URL must be an absolute HTTP(S) endpoint")
    guard (not (not (bytes_eq parsed.url.username []) || is_present parsed.url.password))
        (invalid_url "credentials must not be embedded in the URL")
    guard (not (is_present parsed.url.fragment)) (invalid_url "fragments are not allowed")
    guard (not (any is_credential parsed.url.query_keys))
        (invalid_url "API keys must use the separate in-memory credential field")
    check_scheme parsed.url.scheme (is_loopback_host parsed.host)
    guard (not (is_remote_address parsed.host))
        (invalid_url "explicit non-loopback IP addresses are not allowed")
    ok parsed
