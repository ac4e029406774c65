-- ===== src/Request/Send/Checked.antt =====
-- src/request.rs `send`: what is refused before anything is sent, and what a request without the
-- session carries.
use grindr_rs.Prelude.{
  ◌∙◌, List, none, true, false, Text, codes, starts_with, ◌≡◌, ◌⊎◌, inl, inr, refl, Bool-cases,
}
use grindr_rs.Error.{err, GrindrError}
use grindr_rs.World.{Sent, Env, World, ◌>>=◌}
use grindr_rs.Request.Body.{Request, validate_path, is_signed}
use grindr_rs.Request.Exchange.{Access, anonymous_access, exchange}
use grindr_rs.Request.Trail.{Trail, Trail-refl}
use grindr_rs.Request.Attempt.Sends.{anonymous-Traced}
use package.grindr_rs.Request.Send.{prepare, send}
use grindr_rs.Request.Attempt.{sent_of}
use grindr_rs.Request.Body.Carried.{authorization_in-required, authorization_in}
use grindr_rs.Headers.{Header}

-- A relative path, or a signed body without the session.
abbrev pub Invalid : Access → Request → Type 0
Invalid access request =
    (starts_with (codes "/") request.path ≡ false)
    ⊎ ((access ≡ anonymous_access) × (is_signed request.body ≡ true))

-- A relative path, or a signed body without the session, is an error that names the request
-- invalid; nothing is sent, nothing waited for and no state changed.
pub refused_before_sending :
    (env : Env) (access : Access) (request : Request) (w : World env)
    → Invalid access request
    → (reason : Text) × (send env access request w ≡ (err (GrindrError.invalid_request reason), w))
unfolding send prepare validate_path ◌>>=◌
refused_before_sending env access request w (inl e) = rw e (_, refl)
refused_before_sending env access request w (inr (e, s)) =
    elim (Bool-cases (starts_with (codes "/") request.path)) [
      | inl good ↦ rw (good, e, s) (_, refl)
      | inr bad ↦ rw bad (_, refl)
    ]

-- No authorization, neither given nor in the headers.
abbrev pub Unauthorized : Sent → Type 0
Unauthorized s = (s.authorization ≡ none) × (authorization_in s.headers ≡ none)

sent_of-Unauthorized :
    (request : Request) (items : List Header) (b : Text)
    → authorization_in items ≡ authorization_in request.extra_headers
    → authorization_in request.extra_headers ≡ none
    → Unauthorized (sent_of request none items b)
unfolding sent_of
sent_of-Unauthorized request items b tied bare =
    (refl, authorization_in-required request.required_device_info items ∙ (tied ∙ bare))

-- Whatever the server answers, no request that `send` sends without the session has a header named
-- `authorization`, unless the caller brought one among the extra headers.
pub anonymous_without_authorization :
    (env : Env) (request : Request) (w : World env)
    → authorization_in request.extra_headers ≡ none
    → Trail Unauthorized 0 w.sent (send env anonymous_access request w).1.sent
unfolding send prepare validate_path ◌>>=◌ exchange
anonymous_without_authorization env request w bare =
    elim (Bool-cases (starts_with (codes "/") request.path)) [
      | inr bad ↦ rw bad (Trail-refl w.sent)
      | inl good ↦ elim (Bool-cases (is_signed request.body)) [
        | inl s ↦ rw (good, s) (Trail-refl w.sent)
        | inr n ↦
            rw (good, n)
              ((anonymous-Traced env Unauthorized request
                  (λ items b tied. sent_of-Unauthorized request items b tied bare)).trail
                w)
      ]
    ]
