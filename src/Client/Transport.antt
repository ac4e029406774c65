-- ===== src/Client/Transport.antt =====
-- src/client.rs: the HTTP clients of a device, and the methods of `GrindrClient` that replace them.
-- The HTTP library builds a client of its configuration, or fails.
use grindr_rs.Prelude.{
  arith, ◌≡◌, ℕ, Bool, true, false, Option, none, some, Text, codes, ◌⊎◌, inl, inr,
}
use grindr_rs.Error.{WreqError, from_wreq, Result, ok, err, ◌>>=◌}
use grindr_rs.Device.{DeviceInfo}
use grindr_rs.Headers.{build_user_agent}
use grindr_rs.World.{Timeouts}
use grindr_rs.Stream.Watchdog.{connect_timeout}
use package.grindr_rs.Client.Emulation.{
  Emulation, grindr_emulation, grindr_ws_emulation, okhttp_pool_idle, okhttp_max_idle_connections,
}

-- `MEDIA_TIMEOUT` and `MEDIA_BODY_TIMEOUT` of src/media.rs, in milliseconds.
abbrev pub media_timeout : ℕ
media_timeout = 20_000

abbrev pub media_body_timeout : ℕ
media_body_timeout = 120_000

-- `Timeouts::default`.
abbrev pub default_timeouts : Timeouts
default_timeouts = record {
  read = 30_000;
  upload = 120_000;
  stall = 30_000;
  media = media_timeout;
  media_body = media_body_timeout;
}

-- `ClientBuilder`; `counted` says that the connections are counted and their names resolved by the
-- liveness of the media.
pub record ClientBuilder : Type 0 where
  pub emulation : Emulation
  pub gzip : Bool
  pub deflate : Bool
  pub brotli : Bool
  pub zstd : Bool
  pub connect_timeout : ℕ
  pub pool_idle_timeout : ℕ
  pub pool_max_idle_per_host : ℕ
  pub tcp_keepalive : Option ℕ
  pub read_timeout : Option ℕ
  pub http1_only : Bool
  pub counted : Bool

abbrev pub grindr_client_builder : ClientBuilder
grindr_client_builder = record {
  emulation = grindr_emulation;
  gzip = true;
  deflate = false;
  brotli = false;
  zstd = false;
  connect_timeout = connect_timeout;
  pool_idle_timeout = okhttp_pool_idle;
  pool_max_idle_per_host = okhttp_max_idle_connections;
  tcp_keepalive = none;
  read_timeout = none;
  http1_only = false;
  counted = false;
}

abbrev pub http_client_builder : ℕ → ClientBuilder
http_client_builder read = record grindr_client_builder { read_timeout = some read }

abbrev pub media_client_builder : ℕ → ClientBuilder
media_client_builder read = record grindr_client_builder {
  read_timeout = some read;
  counted = true;
}

abbrev pub ws_client_builder : ClientBuilder
ws_client_builder = record grindr_client_builder {
  emulation = grindr_ws_emulation;
  http1_only = true;
}

pub record HttpLib : Type 1 where
  pub Client : Type 0
  pub build : ClientBuilder → Client ⊎ WreqError

module _ (lib : HttpLib) where
  open lib use {Client}

  pub record Fingerprint : Type 0 where
    pub http : Client
    pub ws_http : Client
    pub media_http : Client
    pub device : DeviceInfo
    pub user_agent : Text

  unfoldable pub built : ClientBuilder → Result Client
  built builder = elim (lib.build builder) [ inl client ↦ ok client | inr e ↦ err (from_wreq e) ]

  unfoldable pub build_http_client : ℕ → Result Client
  unfolding built
  build_http_client read = built (http_client_builder read)

  unfoldable pub build_media_client : ℕ → Result Client
  unfolding built
  build_media_client read = built (media_client_builder read)

  unfoldable pub build_ws_client : Result Client
  unfolding built
  build_ws_client = built ws_client_builder

  unfoldable pub build_fingerprint : DeviceInfo → Timeouts → Result Fingerprint
  unfolding build_user_agent codes build_http_client build_ws_client build_media_client
  build_fingerprint device timeouts = do
    http ← build_http_client timeouts.read
    ws_http ← build_ws_client
    media_http ← build_media_client timeouts.read
    ok (record {
      http = http;
      ws_http = ws_http;
      media_http = media_http;
      device = device;
      user_agent = build_user_agent device (codes "Free");
    })

  -- `Fingerprint::with_media_http` of src/rest.rs.
  unfoldable pub with_media_http : Fingerprint → Client → Fingerprint
  with_media_http fp media_http = record fp { media_http = media_http }

  -- A fingerprint is that of the device it was built for.
  pub build_fingerprint-device :
      (device : DeviceInfo) (timeouts : Timeouts) {fp : Fingerprint}
      → build_fingerprint device timeouts ≡ ok fp
      → (fp.device ≡ device) × (fp.user_agent ≡ build_user_agent device (codes "Free"))
  unfolding build_fingerprint build_http_client build_ws_client build_media_client
  build_fingerprint-device device timeouts e = ground arith
