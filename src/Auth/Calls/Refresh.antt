-- ===== src/Auth/Calls/Refresh.antt =====
-- src/auth.rs: `create_session`, `refresh_session` and the gated refresh.
pub mod Sends
pub mod Outcome
pub mod Gated
use grindr_rs.Prelude.{if◌then◌else◌, codes, Bool, true, false, Option, none, some, Text, ℕ}
use grindr_rs.Error.{session_cleared, GrindrError, Result, ok, err, ok_or}
use grindr_rs.World.{attempted, lift, modify, fail, pure, get, await, Env, World, M, ◌>>=◌, ◌>>◌}
use grindr_rs.Auth.Session.{
  ThirdPartySession, AuthBody, refresh, third_party_refresh, SessionKind, SignInResult, Credentials,
  Session,
}
use grindr_rs.Request.Attempt.{request_no_auth}
use grindr_rs.Auth.Claims.{session_from_response, session_from_third_party}
use grindr_rs.Auth.Gate.{is_blocked, record_failure_of}
use grindr_rs.Auth.State.{set_session_if_current, emit_refresh_failure}
use grindr_rs.Request.Body.{real}

abbrev pub not_signed_in : GrindrError
not_signed_in = GrindrError.auth (codes "not signed in")

abbrev pub post : Text
post = codes "POST"

module _ (env : Env) where
  -- The method on the shared state, after the wait for the lock of the session.
  unfoldable pub store_session : Session → ℕ → M env Bool
  store_session session epoch = do
    await
    λ w.
        let (auth, taken) = set_session_if_current session epoch w.auth in
        (ok taken, record w { auth = auth })

  unfoldable pub create_session :
      Text → AuthBody → Text → SessionKind → Option Text → M env (Session × SignInResult)
  unfolding session_from_response codes
  create_session path body email_of_body kind third_party_user_id = do
    resp ← request_no_auth env post path (some (env.auth_json body)) real env.read_session
    lift (session_from_response env.jwt resp email_of_body kind third_party_user_id)

  unfoldable pub third_party_answer : AuthBody → GrindrError → M env ThirdPartySession
  unfolding codes
  third_party_answer body missing = do
    parsed ←
        request_no_auth env post (codes "/v8/sessions/thirdparty") (some (env.auth_json body)) real
          env.read_third_party
    lift (ok_or parsed.authentication_response missing)

  unfoldable pub refresh_third_party_session :
      Text → Text → Text → Option Text → SessionKind → M env (Session × SignInResult)
  unfolding session_from_third_party codes
  refresh_third_party_session third_party_user_id auth_token fallback_email geohash kind = do
    tp ←
        third_party_answer (third_party_refresh third_party_user_id auth_token geohash)
          (GrindrError.auth (codes "third-party session refresh rejected"))
    lift (session_from_third_party env.jwt tp fallback_email kind)

  -- The session that the server makes of saved credentials.
  unfoldable pub fetch_session :
      Credentials → Option Text → SessionKind → M env (Session × SignInResult)
  unfolding codes
  fetch_session c geohash SessionKind.email =
      create_session (codes "/v8/sessions") (refresh c.email c.auth_token geohash) c.email
        SessionKind.email none
  fetch_session c geohash kind = do
    third_party_user_id ← lift (
        ok_or c.third_party_user_id
          (GrindrError.auth (codes "third-party session missing third-party user id")))
    refresh_third_party_session third_party_user_id c.auth_token c.email geohash kind

  -- `set_session_if_current`, and the error if it refused.
  unfoldable pub store_or_cleared : Session → ℕ → M env (Unit {0})
  store_or_cleared session epoch = do
    taken ← store_session session epoch
    if taken then pure tt else fail session_cleared

  unfoldable pub current_session : World env → Result Session
  current_session w = ok_or w.auth.session not_signed_in

  unfoldable pub refresh_session : Option Text → M env SignInResult
  unfolding current_session
  refresh_session geohash = do
    await
    s ← λ w. (current_session w, w)
    epoch ← get (λ w. w.auth.sign_out_epoch)
    (session, result) ← fetch_session s.credentials geohash s.credentials.kind
    store_or_cleared session epoch
    pure result

  unfoldable pub note_refused : GrindrError → World env → World env
  note_refused e w = record w {
    auth = record w.auth {
      refresh_gate = record_failure_of w.auth.refresh_gate e (env.instant w.turn);
    };
  }

  -- `emit_refresh_failure`, after its wait for the lock of the session.
  unfoldable pub emit : GrindrError → World env → World env
  emit e w = record w { auth = emit_refresh_failure e w.auth }

  unfoldable pub gated_outcome : Result SignInResult → M env Bool
  unfolding note_refused emit
  gated_outcome (ok result) = pure true
  gated_outcome (err e) = do modify (note_refused e); await; modify (emit e); pure false

  unfoldable pub gate_blocked : World env → Bool
  gate_blocked w = is_blocked w.auth.refresh_gate (env.instant w.turn)

  unfoldable pub refresh_gated : M env Bool
  unfolding gate_blocked
  refresh_gated = do
    blocked_now ← get gate_blocked
    if blocked_now then pure false else attempted (refresh_session none) >>= gated_outcome
