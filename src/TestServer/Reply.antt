-- ===== src/TestServer/Reply.antt =====
-- src/testserver.rs `respond`: what the server answers at each path, if no reply is queued for it.
use grindr_rs.Prelude.{
  Bool, true, false, Option, none, some, List, [], ◌∷◌, ◌++◌, Text, text_eq, codes, starts_with,
  if◌then◌else◌,
}
use package.grindr_rs.Texts.{before}
use package.grindr_rs.TestServer.State.{State, Payload, device_info, queued_reply}

abbrev pub jwt : Text
jwt = codes "eyJhbGciOiJIUzI1NiIsInR5cCI6IkpXVCJ9.eyJleHAiOjk5OTk5OTk5OTl9.sig"

abbrev pub refreshed_profile_id : Text
refreshed_profile_id = codes "42"

abbrev pub challenge : Text
challenge = codes "chal-123"

abbrev pub late_unauthorized_prefix : Text
late_unauthorized_prefix = codes "/late-401/"

abbrev pub slow_read_prefix : Text
slow_read_prefix = codes "/slow-read/"

abbrev pub accepting_path : Text
accepting_path = codes "/accepting"

unfoldable pub session_payload : Text
unfolding codes
session_payload =
    codes "{\"profileId\":\""
    ++ (refreshed_profile_id
        ++ (codes "\",\"sessionId\":\"" ++ (jwt ++ codes "\",\"authToken\":\"refreshed-tok\"}")))

unfoldable pub challenge_payload : Text
unfolding codes
challenge_payload = codes "{\"challenge\":\"" ++ (challenge ++ codes "\"}")

unfoldable pub ok_with : Text → Payload
unfolding codes
ok_with body = (codes "200 OK", body)

unfoldable pub is_at : Text → List Text → Bool
unfolding text_eq
is_at path [] = false
is_at path (p ∷ ps) = if text_eq path p then true else is_at path ps

unfoldable pub route : Text → Payload
unfolding starts_with is_at ok_with session_payload challenge_payload codes
route path =
    if starts_with late_unauthorized_prefix path
    then (codes "401 Unauthorized", codes "{\"code\":401,\"message\":\"unauthorized\"}")
    else if starts_with slow_read_prefix path
    then ok_with (codes "{}")
    else if is_at path (accepting_path ∷ [])
    then ok_with (codes "{}")
    else if is_at path (codes "/v8/sessions" ∷ codes "/v9/sessions" ∷ [])
    then ok_with session_payload
    else if is_at path (codes "/v1/verification/device-keys/challenge" ∷ [])
    then ok_with challenge_payload
    else if is_at path
        (codes "/v1/verification/device-keys" ∷ codes "/v2/verification/device-keys" ∷ [])
    then ok_with (codes "{}")
    else if is_at path (codes "/v3/bootstrap" ∷ [])
    then ok_with (codes "{\"ok\":true}")
    else (codes "404 Not Found", codes "{\"code\":404,\"message\":\"no route\"}")

unfoldable pub or_route : Text → Option Payload → Payload
unfolding route
or_route path none = route path
or_route path (some reply) = reply

-- `path.split('?').next()`.
unfoldable pub without_query : Text → Text
unfolding before codes
without_query path = before path (codes "?")

-- The sleep of a late refusal is left out.
unfoldable pub respond : Text → List (Text × Text) → State → State × Payload
unfolding without_query device_info queued_reply or_route
respond path headers s =
    let p = without_query path in
    let queued = queued_reply (device_info headers) p s in (queued.0, or_route p queued.1)
