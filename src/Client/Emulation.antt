-- ===== src/Client/Emulation.antt =====
-- src/client.rs: what the HTTP library is told of the fingerprint of the app. A builder of the
-- library is the record of what was set.
pub mod Order
use grindr_rs.Prelude.{
  ℕ, ◌*◌, Bool, true, false, Option, none, some, List, [], ◌∷◌, ◌++◌, Text, codes,
}

-- Texts joined by colons.
abbrev pub joined : Text → List Text → Text
joined first [] = first
joined first (t ∷ ts) = first ++ (codes ":" ++ joined t ts)

abbrev pub modern_tls_ciphers : Text
modern_tls_ciphers = joined (codes "TLS_AES_128_GCM_SHA256") (
    codes "TLS_AES_256_GCM_SHA384"
    ∷ codes "TLS_CHACHA20_POLY1305_SHA256"
    ∷ codes "TLS_ECDHE_ECDSA_WITH_AES_128_GCM_SHA256"
    ∷ codes "TLS_ECDHE_RSA_WITH_AES_128_GCM_SHA256"
    ∷ codes "TLS_ECDHE_ECDSA_WITH_AES_256_GCM_SHA384"
    ∷ codes "TLS_ECDHE_RSA_WITH_AES_256_GCM_SHA384"
    ∷ codes "TLS_ECDHE_ECDSA_WITH_CHACHA20_POLY1305_SHA256"
    ∷ codes "TLS_ECDHE_RSA_WITH_CHACHA20_POLY1305_SHA256"
    ∷ codes "TLS_ECDHE_RSA_WITH_AES_128_CBC_SHA"
    ∷ codes "TLS_ECDHE_RSA_WITH_AES_256_CBC_SHA"
    ∷ codes "TLS_RSA_WITH_AES_128_GCM_SHA256"
    ∷ codes "TLS_RSA_WITH_AES_256_GCM_SHA384"
    ∷ codes "TLS_RSA_WITH_AES_128_CBC_SHA"
    ∷ codes "TLS_RSA_WITH_AES_256_CBC_SHA"
    ∷ [])

abbrev pub sigalgs : Text
sigalgs = joined (codes "ecdsa_secp256r1_sha256") (
    codes "rsa_pss_rsae_sha256"
    ∷ codes "rsa_pkcs1_sha256"
    ∷ codes "ecdsa_secp384r1_sha384"
    ∷ codes "rsa_pss_rsae_sha384"
    ∷ codes "rsa_pkcs1_sha384"
    ∷ codes "rsa_pss_rsae_sha512"
    ∷ codes "rsa_pkcs1_sha512"
    ∷ codes "rsa_pkcs1_sha1"
    ∷ [])

pub data SslCurve : Type 0 where
  x25519 : SslCurve
  secp256r1 : SslCurve
  secp384r1 : SslCurve

abbrev pub curves : List SslCurve
curves = x25519 ∷ secp256r1 ∷ secp384r1 ∷ []

pub data PseudoOrder : Type 0 where
  method : PseudoOrder
  path : PseudoOrder
  authority : PseudoOrder
  scheme : PseudoOrder

abbrev pub pseudo_order : List PseudoOrder
pseudo_order = method ∷ path ∷ authority ∷ scheme ∷ []

pub data SettingsOrder : Type 0 where
  initial_window_size : SettingsOrder
  header_table_size : SettingsOrder
  enable_push : SettingsOrder
  max_concurrent_streams : SettingsOrder
  max_frame_size : SettingsOrder
  max_header_list_size : SettingsOrder
  unknown_setting8 : SettingsOrder
  unknown_setting9 : SettingsOrder

abbrev pub settings_order : List SettingsOrder
settings_order =
    initial_window_size ∷ header_table_size ∷ enable_push ∷ max_concurrent_streams ∷ max_frame_size
    ∷ max_header_list_size ∷ unknown_setting8 ∷ unknown_setting9 ∷ []

abbrev pub okhttp_window_size : ℕ
okhttp_window_size = 16 * 1024 * 1024

abbrev pub okhttp_first_stream_id : ℕ
okhttp_first_stream_id = 3

-- Five minutes, in milliseconds.
abbrev pub okhttp_pool_idle : ℕ
okhttp_pool_idle = 300_000

abbrev pub okhttp_max_idle_connections : ℕ
okhttp_max_idle_connections = 5

pub data TlsVersion : Type 0 where
  tls_1_2 : TlsVersion
  tls_1_3 : TlsVersion

pub record TlsConfig : Type 0 where
  pub enable_ocsp_stapling : Bool
  pub pre_shared_key : Bool
  pub curves : List SslCurve
  pub sigalgs_list : Text
  pub cipher_list : Text
  pub min_tls_version : TlsVersion
  pub max_tls_version : TlsVersion

abbrev pub okhttp_tls_config : TlsConfig
okhttp_tls_config = record {
  enable_ocsp_stapling = true;
  pre_shared_key = true;
  curves = curves;
  sigalgs_list = sigalgs;
  cipher_list = modern_tls_ciphers;
  min_tls_version = tls_1_2;
  max_tls_version = tls_1_3;
}

pub record Http2Config : Type 0 where
  pub initial_stream_id : ℕ
  pub initial_stream_window_size : ℕ
  pub initial_connection_window_size : ℕ
  pub headers_pseudo_order : List PseudoOrder
  pub settings_order : List SettingsOrder

abbrev pub okhttp_http2_config : Http2Config
okhttp_http2_config = record {
  initial_stream_id = okhttp_first_stream_id;
  initial_stream_window_size = okhttp_window_size;
  initial_connection_window_size = okhttp_window_size;
  headers_pseudo_order = pseudo_order;
  settings_order = settings_order;
}

abbrev pub okhttp_ws_header_order : List Text
okhttp_ws_header_order =
    codes "authorization"
    ∷ codes "l-time-zone"
    ∷ codes "l-grindr-roles"
    ∷ codes "l-device-info"
    ∷ codes "accept"
    ∷ codes "user-agent"
    ∷ codes "l-locale"
    ∷ codes "accept-language"
    ∷ codes "upgrade"
    ∷ codes "connection"
    ∷ codes "sec-websocket-key"
    ∷ codes "sec-websocket-version"
    ∷ codes "sec-websocket-extensions"
    ∷ codes "accept-encoding"
    ∷ []

-- `EmulationProvider`: `none` is what a builder does not set. No headers are sent by default.
pub record Emulation : Type 0 where
  pub tls_config : TlsConfig
  pub title_case_headers : Bool
  pub http2_config : Option Http2Config
  pub headers_order : Option (List Text)
  pub default_headers : Option (List (Text × Text))

abbrev pub grindr_ws_emulation : Emulation
grindr_ws_emulation = record {
  tls_config = okhttp_tls_config;
  title_case_headers = true;
  http2_config = none;
  headers_order = some okhttp_ws_header_order;
  default_headers = none;
}

-- `grindr_emulation`, which `probe_emulation` returns.
abbrev pub grindr_emulation : Emulation
grindr_emulation = record {
  tls_config = okhttp_tls_config;
  title_case_headers = false;
  http2_config = some okhttp_http2_config;
  headers_order = none;
  default_headers = none;
}
