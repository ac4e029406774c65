-- ===== src/Request/Attempt/Order.antt =====
-- src/request.rs: the order of the headers of a request whose body is not signed.
use grindr_rs.Prelude.{
  false, Option, List, [], ◌++◌, Text, codes, map_option, length, ◌≡◌, refl, arith,
}
use grindr_rs.Error.{ok}
use grindr_rs.Device.{DeviceInfo}
use grindr_rs.Headers.{Header, build}
use grindr_rs.World.{Env, World, Sent}
use grindr_rs.Auth.Session.{Authorization, authorization_header}
use grindr_rs.Request.Body.{
  Request, Body, is_signed, body_headers, required_headers, headers_then_body,
}
use grindr_rs.Request.Body.Order.{
  EncodingsLast, headers_then_body-EncodingsLast, required-EncodingsLast, body_headers-Plain,
}
use grindr_rs.Request.Trail.{
  Trail, Traced, Any, weight, bind-Traced, silent-Traced, await-Traced, lift-Traced, weaken-Traced,
}
use package.grindr_rs.Request.Attempt.{sent_of, attempt, attempt_body}
use package.grindr_rs.Request.Attempt.Sends.{transmit-Traced, send_streamed-Traced}

-- The headers that a body which is not signed brings.
abbrev pub brought : Body → List Header
brought (Body.json b) = body_headers (codes "application/json; charset=utf-8") (length b)
brought (Body.bytes content_type b) = body_headers content_type (length b)
brought (Body.stream content_type size) = body_headers content_type size
brought body = []

module _ (env : Env) (request : Request) (authorization : Option Authorization) where
  abbrev pub Builds : DeviceInfo → Text → List Header → Type 0
  Builds device user_agent built =
      build env.header device user_agent (map_option authorization_header authorization)
        (map_option (λ _. codes "[FREE]") authorization)
      ≡ ok built

  -- The headers are those that are required, those that are built for some device, the extra ones and
  -- those of the body, rearranged; all accepted encodings stand at the end.
  abbrev pub InOrder : Sent → Type 0
  InOrder s =
      (device : DeviceInfo) × (user_agent : Text) × (built : List Header) × Builds device user_agent
        built
      × EncodingsLast s.headers (
          required_headers request.required_device_info
          ++ ((built ++ request.extra_headers) ++ brought request.body))

  module _ (device : DeviceInfo) (user_agent : Text) (built : List Header)
      (builds : Builds device user_agent built) where
    abbrev Lasts : List Header → Type 0
    Lasts of_body =
        EncodingsLast (headers_then_body (built ++ request.extra_headers) of_body)
          ((built ++ request.extra_headers) ++ brought request.body)

    sent_of-InOrder :
        (of_body : List Header) (b : Text)
        → Lasts of_body
        → InOrder (
            sent_of request authorization
              (headers_then_body (built ++ request.extra_headers) of_body)
              b)
    unfolding sent_of
    sent_of-InOrder of_body b h = (
      device,
      user_agent,
      built,
      builds,
      required-EncodingsLast request.required_device_info _ _ h,
    )

    attempt_body-InOrder :
        (device_id : Text) (body : Body)
        → request.body ≡ body
        → is_signed body ≡ false
        → Traced InOrder
            (weight authorization)
            Any
            (attempt_body env request authorization device_id (built ++ request.extra_headers) body)
    unfolding attempt_body is_signed
    attempt_body-InOrder device_id (Body.stream content_type size) e h =
        send_streamed-Traced env InOrder request authorization _ content_type size (
          sent_of-InOrder _ []
            (rw e (headers_then_body-EncodingsLast _ _ (body_headers-Plain _ _))))
    attempt_body-InOrder device_id (Body.signed content_type b) e h = ground arith
    attempt_body-InOrder device_id (Body.json b) e h =
        transmit-Traced env InOrder request authorization _ b (
          sent_of-InOrder _ b (rw e (headers_then_body-EncodingsLast _ _ (body_headers-Plain _ _))))
    attempt_body-InOrder device_id (Body.bytes content_type b) e h =
        transmit-Traced env InOrder request authorization _ b (
          sent_of-InOrder _ b (rw e (headers_then_body-EncodingsLast _ _ (body_headers-Plain _ _))))
    attempt_body-InOrder device_id Body.empty e h =
        transmit-Traced env InOrder request authorization _ []
          (sent_of-InOrder _ [] (rw e (headers_then_body-EncodingsLast _ [] tt)))

  attempt-Orders :
      is_signed request.body ≡ false
      → Traced InOrder (weight authorization) Any (attempt env request authorization)
  unfolding attempt
  attempt-Orders h =
      weaken-Traced
        (bind-Traced await-Traced λ _ _. bind-Traced (silent-Traced _ (λ w. refl)) λ fp _.
          bind-Traced (lift-Traced (Builds fp.device fp.user_agent) _ (λ built e. e))
            λ built builds.
              attempt_body-InOrder fp.device fp.user_agent built builds fp.device.device_id
                request.body refl h)
        (omega arith)

-- A request that `attempt` sends, and whose body is not signed, has these headers: those that say what
-- device is required, those that `build` made for some device and this authorization, the extra ones and
-- those of its body, rearranged so that all accepted encodings stand at the end. At most one such request has an
-- authorization, and none has one that was not given.
pub attempt-InOrder :
    (env : Env) (request : Request) (authorization : Option Authorization) (w : World env)
    → is_signed request.body ≡ false
    → Trail
        (InOrder env request authorization)
        (weight authorization)
        w.sent
        (attempt env request authorization w).1.sent
attempt-InOrder env request authorization w h = (attempt-Orders env request authorization h).trail w
