-- ===== src/Auth/Calls/SignIn.antt =====
-- src/auth.rs: signing in, and the assignments of the server.
pub mod Stores
use grindr_rs.Prelude.{is_some, any, if◌then◌else◌, ◌&&◌, text_eq, codes, Bool, Option, none, Text}
use grindr_rs.Error.{GrindrError, ok_or}
use grindr_rs.World.{pure, lift, get, Env, M, ◌>>=◌, ◌>>◌}
use package.grindr_rs.Auth.Calls.Refresh.{store_or_cleared, third_party_answer, create_session}
use grindr_rs.Request.Attempt.{request_no_auth}
use grindr_rs.Auth.Claims.{session_from_third_party}
use grindr_rs.Auth.Session.{
  email_sign_in, third_party_sign_in, third_party_vendor, SessionKind, SignInResult, Assignment,
}
use grindr_rs.Request.Body.{anonymous_device}

module _ (env : Env) where
  -- The parameters are the email, the password, the geohash and the captcha token.
  unfoldable pub sign_in_with_email : Text → Text → Option Text → Option Text → M env SignInResult
  unfolding codes
  sign_in_with_email address password geohash captcha_token = do
    epoch ← get (λ w. w.auth.sign_out_epoch)
    (session, result) ←
        create_session env
          (if is_some captcha_token then codes "/v9/sessions" else codes "/v8/sessions")
          (email_sign_in address password geohash captcha_token) address SessionKind.email none
    store_or_cleared env session epoch
    pure result

  unfoldable pub sign_in_with_third_party : SessionKind → Text → Option Text → M env SignInResult
  unfolding session_from_third_party codes
  sign_in_with_third_party kind provider_access_token geohash = do
    vendor ← lift (
        ok_or (third_party_vendor kind) (GrindrError.auth (codes "not a third-party session kind")))
    epoch ← get (λ w. w.auth.sign_out_epoch)
    tp ←
        third_party_answer env (third_party_sign_in vendor provider_access_token geohash)
          (GrindrError.auth (codes "account not registered"))
    (session, result) ← lift (session_from_third_party env.jwt tp tp.third_party_user_id kind)
    store_or_cleared env session epoch
    pure result

  unfoldable pub is_on : Text → Assignment → Bool
  unfolding text_eq codes
  is_on key a = text_eq a.key key && text_eq a.value (codes "on")

  unfoldable pub assignment_enabled : Text → M env Bool
  unfolding is_on codes
  assignment_enabled key = do
    assignments ←
        request_no_auth env (codes "GET") (codes "/public/v1/assignments") none anonymous_device
          env.read_assignments
    pure (any (is_on key) assignments)
