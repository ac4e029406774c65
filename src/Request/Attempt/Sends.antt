-- ===== src/Request/Attempt/Sends.antt =====
-- src/request.rs: what one attempt, and each call that it makes, leaves on the wire.
use grindr_rs.Prelude.{
  ap, ◌∙◌, ◌++◌, map_option, length, text_eq, codes, ℕ, Option, none, some, List, [], ◌∷◌, Text,
  ◌≡◌, refl, arith, ◌⊎◌, inl, inr,
}
use grindr_rs.Error.{Result-cases, WreqError}
use grindr_rs.World.{Sent, Upload, Env, World, modify, Wire, failed, replied}
use grindr_rs.Auth.Session.{Authorization, authorization_header}
use grindr_rs.Headers.{Header}
use package.grindr_rs.Request.Body.Carried.{
  or_else, or_none, authorization_in, authorization_in-append, authorization_in-headers_then_body,
  authorization_in-body, authorization_in-build, authorization_in-required,
}
use grindr_rs.Request.Body.{body_headers, new, RequiredDeviceInfo, Request, Body, headers_then_body}
use grindr_rs.Request.Attempt.{
  body_headers, sent_of, RequiredDeviceInfo, request_no_auth, request_with, anonymous, Upload,
  record_sent, transmit, answer_of, body_of, attempt, attempt_body, send_streamed, streamed_answer,
  signed_headers, note_server_date,
}
use package.grindr_rs.Request.Trail.{
  Under, lift-Traced, returns-Traced, weight, Traced, Any, bind-Traced, silent-Traced, await-Traced,
  weaken-Traced,
}

module _ (env : Env) (Q : Sent → Type 0) where
  note-sent : (date : Option Text) (w : World env) → (note_server_date env date w).sent ≡ w.sent
  unfolding note_server_date
  note-sent date w = ground arith

  note-Traced : (date : Option Text) → Traced Q 0 Any (modify (note_server_date env date))
  note-Traced date = silent-Traced _ (note-sent date)

  body_of-Traced :
      (limit started status : ℕ) (body : WreqError ⊎ Text)
      → Traced Q 0 Any (body_of env limit started status body)
  unfolding body_of
  body_of-Traced limit started status (inl e) = silent-Traced _ (λ w. refl)
  body_of-Traced limit started status (inr b) = silent-Traced _ (λ w. refl)

  answer_of-Traced :
      (limit started : ℕ) (wire : Wire) → Traced Q 0 Any (answer_of env limit started wire)
  unfolding answer_of
  answer_of-Traced limit started (failed e) = silent-Traced _ (λ w. refl)
  answer_of-Traced limit started (replied status date body) =
      bind-Traced (note-Traced date)
        λ _ _. bind-Traced await-Traced λ _ _. body_of-Traced limit started status body

  streamed_answer-Traced : (u : Upload) → Traced Q 0 Any (streamed_answer env u)
  unfolding streamed_answer
  streamed_answer-Traced u = elim (Result-cases u.guarded) [
    | inr (error, e) ↦ rw e (silent-Traced _ (λ w. refl))
    | inl ((status, date), e) ↦ rw e (
        bind-Traced (note-Traced date)
          λ _ _. bind-Traced await-Traced λ _ _. silent-Traced _ (λ w. ground arith))
  ]

  signed_headers-Traced :
      (device_id : Text) (items : List Header) (content_type b : Text)
      → Traced Q 0
          (λ all. authorization_in all ≡ authorization_in items)
          (signed_headers env device_id items content_type b)
  unfolding signed_headers authorization_in text_eq codes
  signed_headers-Traced device_id items content_type b = bind-Traced await-Traced λ _ _.
      bind-Traced (silent-Traced _ (λ w. refl)) λ _ _.
        bind-Traced (silent-Traced _ (λ w. refl)) λ _ _.
          returns-Traced _ (authorization_in-append items _ ∙ or_none (authorization_in items))

  module _ (request : Request) (authorization : Option Authorization) where
    pub record_sent-Traced :
        (items : List Header) (b : Text)
        → Q (sent_of request authorization items b)
        → Traced Q
            (weight authorization)
            Any
            (modify (record_sent env request authorization items b))
    unfolding record_sent sent_of
    record_sent-Traced items b leaf = record {
      trail = λ w. record { news = _ ∷ []; split = refl; under = (leaf, tt); few = omega arith };
      value = λ w. tt;
    }

    pub transmit-Traced :
        (items : List Header) (b : Text)
        → Q (sent_of request authorization items b)
        → Traced Q (weight authorization) Any (transmit env request authorization items b)
    unfolding transmit
    transmit-Traced items b leaf =
        weaken-Traced
          (bind-Traced (silent-Traced _ (λ w. refl)) λ started _.
            bind-Traced (record_sent-Traced items b leaf) λ _ _.
              bind-Traced (silent-Traced _ (λ w. refl)) λ leaves_at _.
                bind-Traced await-Traced λ _ _. answer_of-Traced _ started (env.wire leaves_at))
          (omega arith)

    pub send_streamed-Traced :
        (items : List Header) (content_type : Text) (size : ℕ)
        → Q (
            sent_of request authorization
              (headers_then_body items (body_headers content_type size))
              [])
        → Traced Q
            (weight authorization)
            Any
            (send_streamed env request authorization items content_type size)
    unfolding send_streamed
    send_streamed-Traced items content_type size leaf =
        weaken-Traced
          (bind-Traced (record_sent-Traced _ [] leaf) λ _ _.
            bind-Traced (silent-Traced _ (λ w. refl)) λ leaves_at _.
              bind-Traced await-Traced λ _ _. streamed_answer-Traced (env.upload leaves_at))
          (omega arith)

    -- The headers carry the authorization, or else the one that the request brings.
    abbrev pub Tied : List Header → Type 0
    Tied items =
        authorization_in items
        ≡ or_else (map_option authorization_header authorization)
            (authorization_in request.extra_headers)

    with_body-Tied :
        (items of_body : List Header)
        → Tied items
        → authorization_in of_body ≡ none
        → Tied (headers_then_body items of_body)
    with_body-Tied items of_body tied e = authorization_in-headers_then_body items of_body e ∙ tied

    module _
        (leaves : (items : List Header) (b : Text)
          → Tied items
          → Q (sent_of request authorization items b)) where
      attempt_body-Traced :
          (device_id : Text) (items : List Header) (body : Body)
          → Tied items
          → Traced Q
              (weight authorization)
              Any
              (attempt_body env request authorization device_id items body)
      unfolding attempt_body authorization_in
      attempt_body-Traced device_id items (Body.stream content_type size) tied =
          send_streamed-Traced items content_type size
            (leaves _ [] (with_body-Tied items _ tied (authorization_in-body content_type size)))
      attempt_body-Traced device_id items (Body.signed content_type b) tied =
          weaken-Traced
            (bind-Traced (signed_headers-Traced device_id items content_type b)
              λ all same. transmit-Traced all b (leaves all b (same ∙ tied)))
            (omega arith)
      attempt_body-Traced device_id items (Body.json b) tied =
          transmit-Traced _ b
            (leaves _ b (with_body-Tied items _ tied (authorization_in-body _ (length b))))
      attempt_body-Traced device_id items (Body.bytes content_type b) tied =
          transmit-Traced _ b (
            leaves _ b
              (with_body-Tied items _ tied (authorization_in-body content_type (length b))))
      attempt_body-Traced device_id items Body.empty tied =
          transmit-Traced _ [] (leaves _ [] (with_body-Tied items [] tied refl))

      built-Tied :
          (built : List Header)
          → authorization_in built ≡ map_option authorization_header authorization
          → Tied (built ++ request.extra_headers)
      built-Tied built e =
          authorization_in-append built request.extra_headers
          ∙ ap (λ o. or_else o (authorization_in request.extra_headers)) e

      -- An attempt sends at most one request, under the authorization that it was given.
      pub attempt-Traced : Traced Q (weight authorization) Any (attempt env request authorization)
      unfolding attempt
      attempt-Traced =
          weaken-Traced
            (bind-Traced await-Traced λ _ _. bind-Traced (silent-Traced _ (λ w. refl)) λ fp _.
              bind-Traced
                (lift-Traced
                  (λ items. authorization_in items ≡ map_option authorization_header authorization)
                  _
                  (λ items e.
                    authorization_in-build env.header fp.device fp.user_agent
                      (map_option authorization_header authorization)
                      (map_option (λ _. codes "[FREE]") authorization) e))
                λ items carried.
                  attempt_body-Traced fp.device.device_id _ request.body (built-Tied items carried))
            (omega arith)

  -- A request without the session.
  pub anonymous-Traced :
      (request : Request)
      → ((items : List Header) (b : Text)
          → Tied request none items
          → Q (sent_of request none items b))
      → Traced Q 0 Any (anonymous env request)
  unfolding anonymous
  anonymous-Traced request leaves =
      bind-Traced (attempt-Traced request none leaves) λ _ _. silent-Traced _ (λ w. refl)

module _ (env : Env) (p : Option Text) where
  authorized-Under :
      (request : Request) (a : Authorization) (items : List Header) (b : Text)
      → a.profile_id ≡ p
      → Tied env (Under p) request (some a) items
      → Under p (sent_of request (some a) items b)
  unfolding sent_of
  authorized-Under request a items b same tied =
      (same, authorization_in-required request.required_device_info items ∙ tied)

  pub attempt-Under :
      (a : Authorization)
      → a.profile_id ≡ p
      → (request : Request) → Traced (Under p) 1 Any (attempt env request (some a))
  attempt-Under a same request =
      attempt-Traced env (Under p) request (some a)
        (λ items b tied. authorized-Under request a items b same tied)

  request_with-Traced :
      {A : Type 0} (method path : Text) (body : Body) (info : RequiredDeviceInfo)
      (read : Text → Option A)
      → Traced (Under p) 0 Any (request_with env method path body info read)
  unfolding request_with sent_of authorization_in new
  request_with-Traced method path body info read =
      bind-Traced
        (anonymous-Traced env (Under p) _
          (λ items b tied. authorization_in-required (some info) items ∙ tied))
        λ _ _. silent-Traced _ (λ w. refl)

  pub request_no_auth-Traced :
      {A : Type 0} (method path : Text) (body : Option (Text ⊎ Text)) (info : RequiredDeviceInfo)
      (read : Text → Option A)
      → Traced (Under p) 0 Any (request_no_auth env method path body info read)
  unfolding request_no_auth
  request_no_auth-Traced method path none info read = request_with-Traced method path _ info read
  request_no_auth-Traced method path (some serialised) info read =
      bind-Traced (silent-Traced _ (λ w. refl))
        λ body _. request_with-Traced method path body info read
