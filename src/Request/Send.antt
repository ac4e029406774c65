-- ===== src/Request/Send.antt =====
-- src/request.rs `RequestBuilder` and `send`, and src/rest.rs: the device key that a signed body needs.
pub mod Checked
pub mod Keys
use grindr_rs.Prelude.{
  ℕ, Bool, true, false, not, Option, none, some, [], ◌∷◌, Text, codes, text_eq, is_some_and,
  if◌then◌else◌, ◌⊎◌,
}
use grindr_rs.Error.{ok_or, GrindrError, http, invalid_request, Result, ok, err}
use grindr_rs.World.{Env, World, M, ◌>>=◌, ◌>>◌, pure, fail, lift, get, modify, await}
use package.grindr_rs.Request.Body.{
  Body, Request, new, is_signed, json_body, validate_path, parse_content_type,
}
use package.grindr_rs.Request.Exchange.{Access, anonymous_access, session_access, exchange}
use grindr_rs.Auth.Calls.Refresh.{post, not_signed_in}
use grindr_rs.Signing.{
  export, registration_signature, from_stored, from_key, DeviceKey, DeviceSigningKey,
}
use grindr_rs.Auth.Calls.Authorize.{authorize}
use grindr_rs.Rest.ApiError.{parse_api_error, parse_json, RawResponse}
use grindr_rs.Rest.Block.{is_success}

module _ (env : Env) where
  -- `session_user_id`.
  unfoldable pub user_id_of : World env → Result (Option Text)
  user_id_of w = elim w.auth.session [
    | some s ↦ ok s.credentials.profile_id
    | none ↦ err not_signed_in
  ]

  -- Whether the session is known to be of another account.
  unfoldable pub foreign : World env → DeviceSigningKey → Bool
  unfolding text_eq
  foreign w key = elim w.auth.session [
    | some s ↦ is_some_and s.credentials.profile_id λ id. not (text_eq id key.user_id)
    | none ↦ false
  ]

  unfoldable pub store_key : DeviceSigningKey → DeviceKey env.crypto → World env → World env
  store_key stored key w = record w { signing = some key; signing_watch = some stored }

  unfoldable pub restore_signing_key : DeviceSigningKey → M env Bool
  unfolding foreign store_key
  restore_signing_key key = do
    await
    refused ← get (λ w. foreign w key)
    if refused then pure false else (elim (from_stored env.crypto key) [
      | none ↦ pure false
      | some device_key ↦ do await; modify (store_key key device_key); pure true
    ])

  unfoldable pub signing_user_id : M env Text
  unfolding user_id_of codes
  signing_user_id = do
    authorization ← authorize env
    await
    id ← λ w. (user_id_of w, w)
    lift (ok_or id (GrindrError.auth (codes "session has no profile id to bind a device key to")))

  -- The registration request: a captcha token selects the second version of the endpoint.
  unfoldable pub registration : Option Text → Body → Result Request
  unfolding codes
  registration none body = ok (new post (codes "/v1/verification/device-keys") body)
  registration (some token) body =
      if env.header.valid token
      then ok (record (new post (codes "/v2/verification/device-keys") body) {
        extra_headers = (codes "x-grindr-captcha-token", token) ∷ [];
      })
      else err (http (env.header.reason token))

  unfoldable pub register : Text → Text → DeviceKey env.crypto → M env (Unit {0})
  unfolding registration codes store_key
  register user_id android_id key = do
    response ←
        exchange env session_access
          (new post (codes "/v1/verification/device-keys/challenge") Body.empty)
    challenge ← lift (parse_json env.codec env.read_challenge response)
    body ← lift (
        json_body (
          env.register_json key.public_key key.key_id
            (registration_signature env.crypto key android_id challenge)))
    await
    captcha ← get (λ w. env.captcha w.turn)
    request ← lift (registration captcha body)
    resp ← exchange env session_access request
    if is_success resp.status
        then modify (store_key (export env.crypto key) key)
        else fail (parse_api_error env.codec resp.body resp.status)

  unfoldable pub has_key_of : Text → World env → Bool
  unfolding text_eq
  has_key_of user_id w = is_some_and w.signing λ k. text_eq k.user_id user_id

  unfoldable pub ensure_device_key : M env (Unit {0})
  unfolding has_key_of
  ensure_device_key = do
    user_id ← signing_user_id
    await
    registered ← get (has_key_of user_id)
    if registered
        then pure tt
        else (await >> get (λ w. w) >>= λ w.
            register user_id w.device.device_id
              (from_key env.crypto (env.fresh_key w.turn) user_id))

  -- What a signed body needs before the exchange.
  unfoldable pub prepare : Access → Request → M env (Unit {0})
  unfolding codes
  prepare anonymous_access request =
      if is_signed request.body
      then fail (invalid_request (codes "a signed body needs the session"))
      else pure tt
  prepare session_access request = if is_signed request.body then ensure_device_key else pure tt

  unfoldable pub send : Access → Request → M env RawResponse
  send access request = do
    lift (validate_path env.codec.debug request.path)
    prepare access request
    exchange env access request

  -- `RequestBuilder`, and its methods.
  pub record RequestBuilder : Type 0 where
    pub method : Text
    pub path : Text
    pub body : Result Body
    pub unauthenticated : Bool

  unfoldable pub builder : Text → Text → RequestBuilder
  builder method path = record {
    method = method;
    path = path;
    body = ok Body.empty;
    unauthenticated = false;
  }

  -- `bytes`, `signed_bytes` and `stream` check the content type.
  unfoldable pub typed_body : Text → (Text → Body) → Result Body
  typed_body content_type make =
      elim (parse_content_type env.header.valid env.codec.debug content_type) [
        | ok value ↦ ok (make value)
        | err e ↦ err e
      ]

  unfoldable pub with_bytes : Text → Text → RequestBuilder → RequestBuilder
  unfolding typed_body
  with_bytes content_type b r = record r {
    body = typed_body content_type (λ value. Body.bytes value b);
  }

  unfoldable pub with_signed_bytes : Text → Text → RequestBuilder → RequestBuilder
  unfolding typed_body
  with_signed_bytes content_type b r = record r {
    body = typed_body content_type (λ value. Body.signed value b);
  }

  unfoldable pub with_stream : Text → ℕ → RequestBuilder → RequestBuilder
  unfolding typed_body
  with_stream content_type size r = record r {
    body = typed_body content_type (λ value. Body.stream value size);
  }

  unfoldable pub with_json : Text ⊎ Text → RequestBuilder → RequestBuilder
  with_json serialised r = record r { body = json_body serialised }

  unfoldable pub without_session : RequestBuilder → RequestBuilder
  without_session r = record r { unauthenticated = true }

  unfoldable pub send_builder : RequestBuilder → M env RawResponse
  send_builder b = do
    body ← lift b.body
    send (if b.unauthenticated then anonymous_access else session_access) (new b.method b.path body)
