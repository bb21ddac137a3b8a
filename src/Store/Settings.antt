-- ===== src/Store/Settings.antt =====
-- crates/swarm-store/src/settings.rs: the settings of the torrent client, with a directory as its
-- characters.
pub mod Saved
use Prim.Native.String.{String}
use pubky_swarm.Base.{
  ℕ, ◌+◌, ◌≤◌, ◌<◌, ◌^◌, ◌≡◌, refl, Bool, true, false, not, ◌&&◌, ◌||◌, Option, none, some, List,
  [], ◌∷◌, arith, ltb, leb, ◌==◌, if◌then◌else◌, length, any,
}
use pubky_swarm.Base.Result.{Result, ok, err, ◌>>=◌, ◌>>◌, guard}
use pubky_swarm.Base.Text.{Text, trim, utf8_length}
use pubky_swarm.Base.Utf8.{is_control}
use pubky_swarm.Store.{SettingsRow, Store, connection}
use pubky_swarm.Store.Failures.{Error, sqlite, check_failed, invalid_client_settings}

abbrev pub max_limit_kbps : ℕ
max_limit_kbps = 1_000_000

pub record ClientSettings : Type 0 where
  pub download_dir : Option Text
  pub dht_enabled : Bool
  pub upnp_enabled : Bool
  pub download_limit_kbps : Option ℕ
  pub upload_limit_kbps : Option ℕ
  pub listen_port : Option ℕ

unfoldable pub default_settings : ClientSettings
default_settings = record {
  download_dir = none;
  dht_enabled = true;
  upnp_enabled = true;
  download_limit_kbps = none;
  upload_limit_kbps = none;
  listen_port = none;
}

-- The three parts of `validate`.
unfoldable pub validate_dir : Option Text → Result Error (Unit {0})
validate_dir none = ok tt
validate_dir (some path) = do
  let trimmed = trim path
  guard (not (length trimmed == 0 || ltb 4096 (utf8_length trimmed)))
      (invalid_client_settings "download_dir must be 1..=4096 characters")
  guard (not (any (λ c. c == 0 || is_control c) trimmed))
      (invalid_client_settings "download_dir contains invalid characters")

unfoldable pub validate_port : Option ℕ → Result Error (Unit {0})
validate_port none = ok tt
validate_port (some port) =
    guard (not (port == 0)) (invalid_client_settings "listen_port must be 1..=65535 when set")

unfoldable pub validate_limit : String → Option ℕ → Result Error (Unit {0})
validate_limit message none = ok tt
validate_limit message (some kbps) =
    guard (not (ltb max_limit_kbps kbps)) (invalid_client_settings message)

unfoldable pub validate : ClientSettings → Result Error (Unit {0})
validate settings = do
  validate_dir settings.download_dir
  validate_port settings.listen_port
  validate_limit "download_limit_kbps must be at most 1000000" settings.download_limit_kbps
  validate_limit "upload_limit_kbps must be at most 1000000" settings.upload_limit_kbps

unfoldable pub normalized_dir : Option Text → Option Text
normalized_dir none = none
normalized_dir (some path) = if length (trim path) == 0 then none else some (trim path)

unfoldable pub normalized_limit : Option ℕ → Option ℕ
normalized_limit none = none
normalized_limit (some kbps) = if kbps == 0 then none else some kbps

unfoldable pub normalized : ClientSettings → ClientSettings
normalized settings = record settings {
  download_dir = normalized_dir settings.download_dir;
  download_limit_kbps = normalized_limit settings.download_limit_kbps;
  upload_limit_kbps = normalized_limit settings.upload_limit_kbps;
}

-- `u32::try_from(value).unwrap_or(0)`, and `u16::try_from(value).ok()`.
unfoldable pub read_u32 : Option ℕ → Option ℕ
read_u32 none = none
read_u32 (some value) = if ltb value (2 ^ 32) then some value else some 0

unfoldable pub read_u16 : Option ℕ → Option ℕ
read_u16 none = none
read_u16 (some value) = if ltb value (2 ^ 16) then some value else none

unfoldable pub settings_of_row : Option SettingsRow → ClientSettings
settings_of_row none = default_settings
settings_of_row (some row) = record {
  download_dir = row.download_dir;
  dht_enabled = row.dht_enabled;
  upnp_enabled = row.upnp_enabled;
  download_limit_kbps = read_u32 row.download_limit_kbps;
  upload_limit_kbps = read_u32 row.upload_limit_kbps;
  listen_port = read_u16 row.listen_port;
}

unfoldable pub client_settings : Store → Result Error ClientSettings
client_settings store = do connection store; ok (settings_of_row store.client_settings)

-- `CHECK (value IS NULL OR value BETWEEN low AND high)`.
unfoldable pub check_between : ℕ → ℕ → Option ℕ → Result Error (Unit {0})
check_between low high none = ok tt
check_between low high (some value) = guard (leb low value && leb value high) (sqlite check_failed)

unfoldable pub dir_length : Option Text → Option ℕ
dir_length none = none
dir_length (some path) = some (length path)

unfoldable pub set_client_settings : ClientSettings → Store → Result Error Store
set_client_settings settings store = do
  let settings = normalized settings
  validate settings
  connection store
  check_between 1 4096 (dir_length settings.download_dir)
  check_between 1 1_000_000 settings.download_limit_kbps
  check_between 1 1_000_000 settings.upload_limit_kbps
  check_between 1 65_535 settings.listen_port
  let row : SettingsRow = record {
    download_dir = settings.download_dir;
    dht_enabled = settings.dht_enabled;
    upnp_enabled = settings.upnp_enabled;
    download_limit_kbps = settings.download_limit_kbps;
    upload_limit_kbps = settings.upload_limit_kbps;
    listen_port = settings.listen_port;
  }
  ok (record store { client_settings = some row })
