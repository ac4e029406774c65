-- ===== src/Request/Attempt.antt =====
-- src/request.rs `attempt` and its parts: one request on the wire.
pub mod Sends
pub mod Order
use grindr_rs.Prelude.{
  length, map_option, inr, inl, ◌⊎◌, ◌-◌, ℕ, Option, none, some, List, [], ◌∷◌, ◌++◌, Text, codes,
  and_then, if◌then◌else◌, leb,
}
use grindr_rs.Prelude.Int.{pos, pos_part, ◌+ℤ◌, ◌-ℤ◌}
use grindr_rs.Error.{
  ok, http, err, GrindrError, timeout, unfinished, auth, WreqError, from_wreq, Result, ok_or,
}
use grindr_rs.Error.Show.{decimal}
use grindr_rs.Headers.{build, Header}
use grindr_rs.Signing.{DeviceKey, upload_headers}
use grindr_rs.World.{
  modify, lift, fail, replied, failed, Upload, Wire, Timeouts, Env, World, M, Sent, ◌>>=◌, ◌>>◌,
  pure, get, await,
}
use package.grindr_rs.Request.Body.{
  json, body_headers, stream, headers_then_body, required_headers, json_body, empty, new,
  RequiredDeviceInfo, Request, Body, bytes, signed,
}
use grindr_rs.Auth.Session.{authorization_header, Authorization}
use grindr_rs.Rest.ApiError.{raw_or_blocked, parse_json, RawResponse}

pub record Answer : Type 0 where
  pub status : ℕ
  pub body : Text

-- `CALL_TIMEOUT`, in milliseconds.
abbrev pub call_timeout : ℕ
call_timeout = 35_000

unfoldable pub ceiling : Timeouts → Body → ℕ
ceiling t (bytes content_type b) = t.upload
ceiling t (signed content_type b) = t.upload
ceiling t body = call_timeout

-- The total and the read timeout that `apply_timeouts` sets on the request.
unfoldable pub apply_timeouts : Timeouts → Body → ℕ × Option ℕ
unfolding ceiling
apply_timeouts t (bytes content_type b) = (ceiling t (bytes content_type b), some t.upload)
apply_timeouts t (signed content_type b) = (ceiling t (signed content_type b), some t.upload)
apply_timeouts t body = (ceiling t body, none)

-- The closure `past_ceiling`: a timeout at or after the ceiling is that of the whole transfer.
unfoldable pub past_ceiling : ℕ → ℕ → WreqError → GrindrError
past_ceiling limit elapsed e = elim (from_wreq e) [
  | timeout phase ↦ if leb limit elapsed then timeout unfinished else timeout phase
  | other ↦ other
]

unfoldable pub sent_of : Request → Option Authorization → List Header → Text → Sent
unfolding required_headers
sent_of request authorization items b = record {
  method = request.method;
  path = request.path;
  headers = required_headers request.required_device_info ++ items;
  body = b;
  authorization = authorization;
}

module _ (env : Env) where
  -- `note_server_date`.
  unfoldable pub note_server_date : Option Text → World env → World env
  note_server_date date w = elim (and_then date env.read_date) [
    | some server_ms ↦ record w { server_offset_ms = pos server_ms -ℤ pos (env.local_ms w.turn) }
    | none ↦ w
  ]

  -- `synced_now_ms`: never negative.
  unfoldable pub synced_now_ms : World env → ℕ
  synced_now_ms w = pos_part (pos (env.local_ms w.turn) +ℤ w.server_offset_ms)

  unfoldable pub device_key : World env → Result (DeviceKey env.crypto)
  unfolding codes
  device_key w = ok_or w.signing (auth (codes "device key not registered"))

  -- `signed_bytes`: the headers of a signed body.
  unfoldable pub signed_headers : Text → List Header → Text → Text → M env (List Header)
  unfolding codes decimal device_key
  signed_headers device_id items content_type b = do
    await
    key ← λ w. (device_key w, w)
    w ← get (λ w. w)
    let s = upload_headers env.crypto key device_id b (synced_now_ms w) (env.nonce w.turn)
    pure (
        items
        ++ ((codes "x-key-id", s.key_id)
            ∷ (codes "x-sig", s.signature)
            ∷ (codes "x-timestamp", decimal s.timestamp)
            ∷ (codes "x-nonce", s.nonce)
            ∷ (codes "content-type", content_type)
            ∷ []))

  -- The authorization that was given is recorded beside the headers that leave.
  unfoldable pub record_sent :
      Request → Option Authorization → List Header → Text → World env → World env
  unfolding sent_of
  record_sent request authorization items b w = record w {
    sent = sent_of request authorization items b ∷ w.sent;
  }

  -- The elapsed time, and the error that it makes of a failure.
  unfoldable pub late_error : ℕ → ℕ → WreqError → World env → GrindrError
  late_error limit started e w = past_ceiling limit (env.instant w.turn - started) e

  unfoldable pub body_of : ℕ → ℕ → ℕ → WreqError ⊎ Text → M env Answer
  unfolding late_error
  body_of limit started status (inl e) w = (err (late_error limit started e w), w)
  body_of limit started status (inr b) w = (ok (record { status = status; body = b }), w)

  unfoldable pub answer_of : ℕ → ℕ → Wire → M env Answer
  unfolding late_error note_server_date
  answer_of limit started (failed e) = λ w. (err (late_error limit started e w), w)
  answer_of limit started (replied status date body) = do
    modify (note_server_date date)
    await
    body_of limit started status body

  -- The request leaves at one turn; the response is there at the next.
  unfoldable pub transmit : Request → Option Authorization → List Header → Text → M env Answer
  unfolding record_sent
  transmit request authorization items b = do
    started ← get (λ w. env.instant w.turn)
    modify (record_sent request authorization items b)
    leaves ← get (λ w. w.turn)
    await
    answer_of (ceiling env.timeouts request.body) started (env.wire leaves)

  unfoldable pub streamed_answer : Upload → M env Answer
  unfolding codes note_server_date
  streamed_answer u = elim u.guarded [
    | err error ↦ fail (elim u.source_error [
      | some source_error ↦ http (codes "request body source failed: " ++ source_error)
      | none ↦ error
    ])
    | ok (status, date) ↦ do
      modify (note_server_date date)
      await
      elim u.body [
        | none ↦ fail (timeout unfinished)
        | some (inl e) ↦ fail (from_wreq e)
        | some (inr b) ↦ pure (record { status = status; body = b })
      ]
  ]

  -- src/stream.rs `send_streamed`. The body that was read is not recorded.
  unfoldable pub send_streamed :
      Request → Option Authorization → List Header → Text → ℕ → M env Answer
  unfolding record_sent
  send_streamed request authorization items content_type size = do
    modify (
        record_sent request authorization (headers_then_body items (body_headers content_type size))
          [])
    leaves ← get (λ w. w.turn)
    await
    streamed_answer (env.upload leaves)

  unfoldable pub attempt_body :
      Request → Option Authorization → Text → List Header → Body → M env Answer
  unfolding codes
  attempt_body request authorization device_id items (stream content_type size) =
      send_streamed request authorization items content_type size
  attempt_body request authorization device_id items (signed content_type b) = do
    all ← signed_headers device_id items content_type b
    transmit request authorization all b
  attempt_body request authorization device_id items (json b) =
      transmit request authorization
        (headers_then_body items
          (body_headers (codes "application/json; charset=utf-8") (length b)))
        b
  attempt_body request authorization device_id items (bytes content_type b) =
      transmit request authorization
        (headers_then_body items (body_headers content_type (length b))) b
  attempt_body request authorization device_id items empty =
      transmit request authorization (headers_then_body items []) []

  unfoldable pub attempt : Request → Option Authorization → M env Answer
  unfolding codes build
  attempt request authorization = do
    await
    fp ← get (λ w. w)
    items ← lift (
        build env.header fp.device fp.user_agent (map_option authorization_header authorization)
          (map_option (λ _. codes "[FREE]") authorization))
    attempt_body request authorization fp.device.device_id (items ++ request.extra_headers)
        request.body

  -- `anonymous`.
  unfoldable pub anonymous : Request → M env RawResponse
  anonymous request = do
    answer ← attempt request none
    lift (raw_or_blocked env.codec answer.status answer.body)

  unfoldable pub request_with :
      {A : Type 0} → Text → Text → Body → RequiredDeviceInfo → (Text → Option A) → M env A
  request_with method path body info read = do
    response ← anonymous (record (new method path body) { required_device_info = some info })
    lift (parse_json env.codec read response)

  -- `request_no_auth`: the body is what the serialiser gave, if there is one.
  unfoldable pub request_no_auth :
      {A : Type 0}
      → Text
      → Text
      → Option (Text ⊎ Text)
      → RequiredDeviceInfo
      → (Text → Option A)
      → M env A
  request_no_auth method path none info read = request_with method path empty info read
  request_no_auth method path (some serialised) info read = do
    body ← lift (json_body serialised)
    request_with method path body info read
