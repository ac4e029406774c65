-- ===== src/Client/Calls.antt =====
-- src/client.rs `GrindrClient`: the methods that pass on to the session and the requests.
use grindr_rs.Prelude.{Bool, Option, none, some, Text, codes}
use grindr_rs.World.{Env, World, M}
use grindr_rs.Signing.{DeviceSigningKey}
use grindr_rs.Auth.Session.{SessionKind, google, facebook, SignInResult}
use grindr_rs.Auth.State
use grindr_rs.Auth.Calls.SignIn
use grindr_rs.Auth.Calls.SignIn.{assignment_enabled}
use grindr_rs.Auth.Calls.Refresh
use grindr_rs.Request.Send
use grindr_rs.Request.Send.{RequestBuilder, builder, ensure_device_key}

module _ (env : Env) where
  unfoldable pub sign_in_with_email_at_geohash : Text → Text → Option Text → M env SignInResult
  unfolding SignIn.sign_in_with_email
  sign_in_with_email_at_geohash email password geohash =
      SignIn.sign_in_with_email env email password geohash none

  unfoldable pub sign_in_with_email : Text → Text → M env SignInResult
  sign_in_with_email email password = sign_in_with_email_at_geohash email password none

  unfoldable pub sign_in_with_email_captcha : Text → Text → Text → M env SignInResult
  unfolding SignIn.sign_in_with_email
  sign_in_with_email_captcha email password captcha_token =
      SignIn.sign_in_with_email env email password none (some captcha_token)

  unfoldable pub sign_in_with_third_party_at_geohash :
      SessionKind → Text → Option Text → M env SignInResult
  unfolding SignIn.sign_in_with_third_party
  sign_in_with_third_party_at_geohash kind provider_access_token geohash =
      SignIn.sign_in_with_third_party env kind provider_access_token geohash

  unfoldable pub sign_in_with_google_at_geohash : Text → Option Text → M env SignInResult
  sign_in_with_google_at_geohash google_access_token geohash =
      sign_in_with_third_party_at_geohash google google_access_token geohash

  unfoldable pub sign_in_with_google : Text → M env SignInResult
  sign_in_with_google google_access_token = sign_in_with_google_at_geohash google_access_token none

  unfoldable pub sign_in_with_facebook : Text → M env SignInResult
  sign_in_with_facebook facebook_access_token =
      sign_in_with_third_party_at_geohash facebook facebook_access_token none

  unfoldable pub sign_in_with_facebook_at_geohash : Text → Option Text → M env SignInResult
  sign_in_with_facebook_at_geohash facebook_access_token geohash =
      sign_in_with_third_party_at_geohash facebook facebook_access_token geohash

  unfoldable pub refresh_session_at_geohash : Option Text → M env SignInResult
  unfolding Refresh.refresh_session
  refresh_session_at_geohash geohash = Refresh.refresh_session env geohash

  unfoldable pub refresh_session : M env SignInResult
  refresh_session = refresh_session_at_geohash none

  unfoldable pub set_active : Bool → World env → World env
  unfolding State.set_active
  set_active active w = record w { auth = State.set_active active w.auth }

  unfoldable pub is_active : World env → Bool
  is_active w = w.auth.active

  unfoldable pub restore_signing_key : DeviceSigningKey → M env Bool
  unfolding Send.restore_signing_key
  restore_signing_key key = Send.restore_signing_key env key

  unfoldable pub request : Text → Text → RequestBuilder env
  unfolding builder
  request method path = builder env method path

  unfoldable pub register_device_key : M env (Unit {0})
  unfolding ensure_device_key
  register_device_key = ensure_device_key env

  unfoldable pub recaptcha_device_key_registration_enabled : M env Bool
  unfolding assignment_enabled codes
  recaptcha_device_key_registration_enabled =
      assignment_enabled env (codes "recaptcha_device_key_registration")

  unfoldable pub recaptcha_first_party_enabled : M env Bool
  unfolding assignment_enabled codes
  recaptcha_first_party_enabled = assignment_enabled env (codes "recaptcha_first_party")
