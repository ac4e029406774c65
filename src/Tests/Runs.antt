-- ===== src/Tests/Runs.antt =====
-- Runs of the calls against the small server.
use grindr_rs.Prelude.{
  text_eq, starts_with, inl, Text, map_option, none, some, codes, ◌≡◌, refl, length, Option, true,
  false,
}
use grindr_rs.Error.{GrindrError, ok, err, Result}
use grindr_rs.Auth.Session.{
  third_party_vendor, authorization_header, expires_before, SignInResult, SessionKind,
}
use grindr_rs.World.{act_all, await, World, ◌>>=◌, wait}
use grindr_rs.Request.Body.{
  is_encoding, is_signed, required_headers, body_headers, headers_then_body, json_body, Request,
  new, empty,
}
use grindr_rs.Request.Exchange.{
  finish, again_with, after_rejection, after_signing, round_refreshed, round_fresh, rounds,
  anonymous_access, exchange, session_access,
}
use grindr_rs.Request.Exchange.Retries.{exchange_same_profile}
use grindr_rs.Request.Trail.{Under, count_authorized, Trail}
use grindr_rs.Auth.Calls.Authorize.{
  holds_token, refresh_after_unauthorized, same_profile, refresh_if_still_expiring, expiring,
  authorize, current_authorization, reauthorize_same_profile,
}
use grindr_rs.Auth.Calls.Refresh.{
  gated_outcome, store_session, store_or_cleared, refresh_third_party_session, third_party_answer,
  create_session, fetch_session, gate_blocked, refresh_session, refresh_gated,
}
use package.grindr_rs.Tests.Setting.{env, calm, fresh, stale, old_authorization}
use grindr_rs.Auth.Calls.Refresh.Outcome.{refresh_session-Stored, Stored}
use grindr_rs.Auth.Calls.SignIn.{sign_in_with_third_party, sign_in_with_email}
use grindr_rs.Request.Send.{send}
use grindr_rs.Auth.Calls.SignIn.Stores.{sign_in_with_email-Stored}
use grindr_rs.Request.Send.Checked.{
  Unauthorized, anonymous_without_authorization, refused_before_sending,
}
use grindr_rs.Auth.Gate.{take_owed_recovery, is_blocked}
use grindr_rs.Request.Attempt.{
  ceiling, note_server_date, body_of, answer_of, record_sent, transmit, attempt_body, attempt,
  anonymous, request_with, request_no_auth,
}
use grindr_rs.Headers.{build}
use grindr_rs.Rest.ApiError.{parse_json, raw_or_blocked}
use grindr_rs.Rest.Block.{is_edge_block, is_cloudflare_challenge, block_kind}
use grindr_rs.Auth.Claims.{session_from_third_party, session_from_response}
use grindr_rs.Auth.State.{set_session_if_current}
use grindr_rs.Request.Body.Carried.{authorization_in}
use grindr_rs.Request.Attempt.Order.{attempt-InOrder, InOrder}

abbrev ping : Request
ping = new (codes "GET") (codes "/v3/me/profile") empty

abbrev ok_part : {A : Type 0} → Result A → Option A
ok_part (ok a) = some a
ok_part (err e) = none

authorize-fresh : (authorize env fresh).0 ≡ ok old_authorization
unfolding authorize ◌>>=◌ await expires_before current_authorization
authorize-fresh = refl

-- A 401, then a refresh, then the request again: three requests, two of them authorized.
exchange-refreshes :
    (map_option (λ r. r.status) (ok_part (exchange env session_access ping fresh).0) ≡ some 200)
    × (length (exchange env session_access ping fresh).1.sent ≡ 3)
    × (count_authorized (exchange env session_access ping fresh).1.sent ≡ 2)
unfolding ◌>>=◌ await wait act_all authorize expiring expires_before current_authorization
    refresh_if_still_expiring codes request_no_auth request_with json_body anonymous attempt
    attempt_body transmit record_sent answer_of body_of note_server_date build headers_then_body
    body_headers required_headers authorization_header raw_or_blocked parse_json block_kind new
    ceiling refresh_session fetch_session create_session third_party_answer
    refresh_third_party_session session_from_response session_from_third_party store_or_cleared
    store_session set_session_if_current refresh_gated gate_blocked is_blocked gated_outcome
    exchange rounds round_fresh round_refreshed after_signing after_rejection again_with finish
    is_signed refresh_after_unauthorized holds_token reauthorize_same_profile same_profile text_eq
    is_cloudflare_challenge is_edge_block take_owed_recovery
exchange-refreshes = (refl, refl, refl)

exchange_same_profile_example :
    (p : Option Text) × Trail (Under p) 3 fresh.sent (exchange env session_access ping fresh).1.sent
exchange_same_profile_example = exchange_same_profile env ping fresh

authorize-run : authorize env fresh ≡ (ok old_authorization, (authorize env fresh).1)
unfolding ◌>>=◌ await wait act_all authorize expiring expires_before current_authorization
    refresh_if_still_expiring
authorize-run = refl

reauthorize-run :
    reauthorize_same_profile env old_authorization fresh
    ≡ (ok old_authorization, (reauthorize_same_profile env old_authorization fresh).1)
unfolding ◌>>=◌ await wait act_all authorize expiring expires_before current_authorization
    refresh_if_still_expiring reauthorize_same_profile same_profile text_eq codes
reauthorize-run = refl

abbrev seven : SignInResult
seven = record { profile_id = codes "7"; restriction = none }

refresh_session-run :
    refresh_session calm none stale ≡ (ok seven, (refresh_session calm none stale).1)
unfolding ◌>>=◌ await wait act_all codes request_no_auth request_with json_body anonymous attempt
    attempt_body transmit record_sent answer_of body_of note_server_date build headers_then_body
    body_headers required_headers authorization_header raw_or_blocked parse_json block_kind new
    ceiling refresh_session fetch_session create_session third_party_answer
    refresh_third_party_session session_from_response session_from_third_party store_or_cleared
    store_session set_session_if_current is_cloudflare_challenge is_edge_block take_owed_recovery
refresh_session-run = refl

refresh_session-Stored_example :
    Stored calm (wait stale).auth.sign_out_epoch seven (refresh_session calm none stale).1
refresh_session-Stored_example =
    refresh_session-Stored calm none stale (refresh_session calm none stale).1 seven
      refresh_session-run

refresh_gated-run : refresh_gated calm stale ≡ (ok true, (refresh_gated calm stale).1)
unfolding ◌>>=◌ await wait act_all codes request_no_auth request_with json_body anonymous attempt
    attempt_body transmit record_sent answer_of body_of note_server_date build headers_then_body
    body_headers required_headers authorization_header raw_or_blocked parse_json block_kind new
    ceiling refresh_session fetch_session create_session third_party_answer
    refresh_third_party_session session_from_response session_from_third_party store_or_cleared
    store_session set_session_if_current refresh_gated gate_blocked is_blocked gated_outcome
    is_cloudflare_challenge is_edge_block take_owed_recovery
refresh_gated-run = refl

abbrev shut : World calm
shut = record stale {
  auth = record stale.auth {
    refresh_gate = record {
      failures = 1;
      retry_at = some 5;
      reported = true;
      client_refused = false;
    };
  };
}

shut-run : gate_blocked calm shut ≡ true
unfolding gate_blocked is_blocked
shut-run = refl

sign_in-run :
    sign_in_with_email calm (codes "e") (codes "p") none none stale
    ≡ (ok seven, (sign_in_with_email calm (codes "e") (codes "p") none none stale).1)
unfolding ◌>>=◌ await wait act_all codes request_no_auth request_with json_body anonymous attempt
    attempt_body transmit record_sent answer_of body_of note_server_date build headers_then_body
    body_headers required_headers authorization_header raw_or_blocked parse_json block_kind new
    ceiling refresh_session fetch_session create_session third_party_answer
    refresh_third_party_session session_from_response session_from_third_party store_or_cleared
    store_session set_session_if_current sign_in_with_email is_cloudflare_challenge is_edge_block
    take_owed_recovery
sign_in-run = refl

sign_in_with_email-Stored_example :
    Stored calm stale.auth.sign_out_epoch seven
      (sign_in_with_email calm (codes "e") (codes "p") none none stale).1
sign_in_with_email-Stored_example =
    sign_in_with_email-Stored calm (codes "e") (codes "p") none none stale
      (sign_in_with_email calm (codes "e") (codes "p") none none stale).1 seven sign_in-run

google-run :
    sign_in_with_third_party calm SessionKind.google (codes "t") none stale
    ≡ (ok seven, (sign_in_with_third_party calm SessionKind.google (codes "t") none stale).1)
unfolding ◌>>=◌ await wait act_all codes request_no_auth request_with json_body anonymous attempt
    attempt_body transmit record_sent answer_of body_of note_server_date build headers_then_body
    body_headers required_headers authorization_header raw_or_blocked parse_json block_kind new
    ceiling refresh_session fetch_session create_session third_party_answer
    refresh_third_party_session session_from_response session_from_third_party store_or_cleared
    store_session set_session_if_current sign_in_with_third_party third_party_vendor
    is_cloudflare_challenge is_edge_block take_owed_recovery
google-run = refl

abbrev relative : Request
relative = new (codes "GET") (codes "v3") empty

refused_before_sending_example :
    (reason : Text) × (send env session_access relative fresh
      ≡ (err (GrindrError.invalid_request reason), fresh))
unfolding codes starts_with new
refused_before_sending_example = refused_before_sending env session_access relative fresh (inl refl)

anonymous_without_authorization_example :
    Trail Unauthorized 0 fresh.sent (send env anonymous_access ping fresh).1.sent
unfolding new authorization_in
anonymous_without_authorization_example = anonymous_without_authorization env ping fresh refl

abbrev posting : Request
posting = new (codes "POST") (codes "/v1/echo") (grindr_rs.Request.Body.json (codes "{}"))

attempt-InOrder_example :
    Trail
      (InOrder env posting (some old_authorization))
      1
      fresh.sent
      (attempt env posting (some old_authorization) fresh).1.sent
unfolding new is_signed
attempt-InOrder_example = attempt-InOrder env posting (some old_authorization) fresh refl
