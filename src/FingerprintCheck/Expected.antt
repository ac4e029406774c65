-- ===== src/FingerprintCheck/Expected.antt =====
-- examples/fingerprint_check.rs: the fingerprint that the client has to show.
use grindr_rs.Prelude.{Bool, true, false, String, List, [], ◌∷◌, Text, codes}

abbrev pub probe_url : Text
probe_url = codes "https://tls.peet.ws/api/all"

abbrev pub cold_ja3_hash : Text
cold_ja3_hash = codes "1d714db2228763eab228fc28ce7f8e4f"

abbrev pub cold_ja4_h2 : Text
cold_ja4_h2 = codes "t13d1513h2_8daaf6152771_eca864cca44a"

abbrev pub cold_ja4_h1 : Text
cold_ja4_h1 = codes "t13d1513h1_8daaf6152771_eca864cca44a"

abbrev pub warm_ja3_hash : Text
warm_ja3_hash = codes "62e5cbd375390b136bf5b06be231ed6b"

abbrev pub warm_ja4_h2 : Text
warm_ja4_h2 = codes "t13d1514h2_8daaf6152771_fadfdae04b4e"

abbrev pub warm_ja4_h1 : Text
warm_ja4_h1 = codes "t13d1514h1_8daaf6152771_fadfdae04b4e"

abbrev pub expected_akamai_h2 : Text
expected_akamai_h2 = codes "4:16777216|16711681|0|m,p,a,s"

abbrev pub expected_pseudo_order : List Text
expected_pseudo_order = codes ":method" ∷ codes ":path" ∷ codes ":authority" ∷ codes ":scheme" ∷ []

abbrev pub expected_grindr_headers : List Text
expected_grindr_headers =
    codes "authorization"
    ∷ codes "l-time-zone"
    ∷ codes "l-grindr-roles"
    ∷ codes "l-device-info"
    ∷ codes "accept"
    ∷ codes "user-agent"
    ∷ codes "l-locale"
    ∷ codes "accept-language"
    ∷ []

abbrev pub expected_tls_extensions_cold : List Text
expected_tls_extensions_cold =
    codes "server_name"
    ∷ codes "extended_master_secret"
    ∷ codes "renegotiationinfo"
    ∷ codes "supported_groups"
    ∷ codes "ec_point_formats"
    ∷ codes "session_ticket"
    ∷ codes "application_layer_protocol_negotiation"
    ∷ codes "status_request"
    ∷ codes "signature_algorithms"
    ∷ codes "key_share"
    ∷ codes "psk_key_exchange_modes"
    ∷ codes "supported_versions"
    ∷ codes "padding"
    ∷ []

abbrev pub expected_tls_extensions_warm : List Text
expected_tls_extensions_warm =
    codes "server_name"
    ∷ codes "extended_master_secret"
    ∷ codes "renegotiationinfo"
    ∷ codes "supported_groups"
    ∷ codes "ec_point_formats"
    ∷ codes "session_ticket"
    ∷ codes "application_layer_protocol_negotiation"
    ∷ codes "status_request"
    ∷ codes "signature_algorithms"
    ∷ codes "key_share"
    ∷ codes "psk_key_exchange_modes"
    ∷ codes "supported_versions"
    ∷ codes "padding"
    ∷ codes "pre_shared_key"
    ∷ []

-- The client that is probed, and whether it has been probed before.
pub record Mode : Type 0 where
  pub label : String
  pub h1 : Bool

pub record Phase : Type 0 where
  pub label : String
  pub warm : Bool

abbrev pub phases : List Phase
phases =
    record { label = "cold-start"; warm = false }
    ∷ record { label = "warm-resumption"; warm = true }
    ∷ []

abbrev pub mode_h2 : Mode
mode_h2 = record { label = "API client (HTTP/2)"; h1 = false }

abbrev pub mode_h1 : Mode
mode_h1 = record { label = "WebSocket client (HTTP/1.1)"; h1 = true }
