-- ===== src/Tests/Keys.antt =====
-- Instances of the rules of the device key.
use grindr_rs.Prelude.{none, ◌≢◌, ◌⊎◌, some, Text, codes, true, false, ◌≡◌, refl}
use grindr_rs.Error.{ok}
use grindr_rs.Signing.{from_stored, export, from_key, DeviceSigningKey}
use grindr_rs.World.{World, ◌>>=◌, await, wait, act_all}
use grindr_rs.Request.Send.{
  store_key, registration, register, has_key_of, user_id_of, restore_signing_key, signing_user_id,
  ensure_device_key,
}
use grindr_rs.Request.Send.Keys.{Holds, restore_signing_key-Holds, ensure_device_key-Holds}
use package.grindr_rs.Tests.Setting.{calm, stale, world_of, session_until}
use grindr_rs.Auth.Calls.Authorize.{
  refresh_if_still_expiring, current_authorization, expiring, authorize,
}
use grindr_rs.Auth.Session.{authorization_header, expires_before}
use grindr_rs.Request.Body.{
  is_signed, new, required_headers, body_headers, headers_then_body, json_body,
}
use grindr_rs.Request.Attempt.{
  ceiling, note_server_date, body_of, answer_of, record_sent, transmit, attempt_body, attempt,
}
use grindr_rs.Headers.{build}
use grindr_rs.Rest.ApiError.{parse_json, raw_or_blocked}
use grindr_rs.Rest.Block.{is_edge_block, is_cloudflare_challenge, block_kind}
use grindr_rs.Request.Exchange.{finish, after_signing, round_fresh, rounds, exchange}

abbrev other_key : DeviceSigningKey
other_key = record { key = codes "k"; user_id = codes "8" }

named-run : user_id_of calm (wait stale) ≡ ok (some (codes "7"))
unfolding user_id_of wait act_all codes
named-run = refl

restore_signing_key-Holds_example :
    ((codes "7" ≢ other_key.user_id)
      × (restore_signing_key calm other_key stale ≡ (ok false, wait stale)))
    ⊎ ((codes "7" ≡ other_key.user_id)
        × (from_stored calm.crypto other_key ≡ none)
        × (restore_signing_key calm other_key stale ≡ (ok false, wait stale)))
    ⊎ ((codes "7" ≡ other_key.user_id)
        × ((restore_signing_key calm other_key stale).0 ≡ ok true)
        × Holds calm (codes "7") (restore_signing_key calm other_key stale).1)
restore_signing_key-Holds_example =
    restore_signing_key-Holds calm other_key stale (codes "7") named-run

abbrev signed_in : World calm
signed_in = world_of calm (some (session_until 3600))

register-run : ensure_device_key calm signed_in ≡ (ok tt, (ensure_device_key calm signed_in).1)
unfolding ◌>>=◌ await wait act_all authorize expiring expires_before current_authorization
    refresh_if_still_expiring codes json_body attempt attempt_body transmit record_sent answer_of
    body_of note_server_date build headers_then_body body_headers required_headers
    authorization_header raw_or_blocked parse_json block_kind new ceiling is_cloudflare_challenge
    is_edge_block exchange rounds round_fresh after_signing finish is_signed ensure_device_key
    signing_user_id user_id_of has_key_of register registration store_key from_key export
register-run = refl

ensure_device_key-Holds_example :
    (id : Text) × (u : World calm) × (signing_user_id calm signed_in ≡ (ok id, u))
    × Holds calm id (ensure_device_key calm signed_in).1
ensure_device_key-Holds_example =
    ensure_device_key-Holds calm signed_in (ensure_device_key calm signed_in).1 register-run
