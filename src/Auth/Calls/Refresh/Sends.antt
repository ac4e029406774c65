-- ===== src/Auth/Calls/Refresh/Sends.antt =====
-- src/auth.rs: what a refresh leaves on the wire.
use grindr_rs.Prelude.{refl, Option, none, Text, ℕ}
use grindr_rs.Error.{GrindrError, Result, ok, err}
use grindr_rs.World.{Env}
use grindr_rs.Auth.Session.{SignInResult, Credentials, SessionKind, AuthBody, Session}
use grindr_rs.Request.Trail.{
  Under, attempted-Traced, if-Traced, Traced, Any, bind-Traced, silent-Traced, await-Traced,
}
use package.grindr_rs.Auth.Calls.Refresh.{
  SignInResult, store_session, Credentials, GrindrError, SessionKind, refresh_gated, gated_outcome,
  refresh_session, store_or_cleared, fetch_session, refresh_third_party_session, third_party_answer,
  AuthBody, create_session,
}
use grindr_rs.Request.Attempt.Sends.{request_no_auth-Traced}

module _ (env : Env) (p : Option Text) where
  create_session-Traced :
      (path : Text) (body : AuthBody) (address : Text) (kind : SessionKind) (id : Option Text)
      → Traced (Under p) 0 Any (create_session env path body address kind id)
  unfolding create_session
  create_session-Traced path body address kind id =
      bind-Traced (request_no_auth-Traced env p _ path _ _ _) λ _ _. silent-Traced _ (λ w. refl)

  third_party_answer-Traced :
      (body : AuthBody) (missing : GrindrError)
      → Traced (Under p) 0 Any (third_party_answer env body missing)
  unfolding third_party_answer
  third_party_answer-Traced body missing =
      bind-Traced (request_no_auth-Traced env p _ _ _ _ _) λ _ _. silent-Traced _ (λ w. refl)

  refresh_third_party_session-Traced :
      (id auth_token fallback : Text) (geohash : Option Text) (kind : SessionKind)
      → Traced (Under p) 0 Any (refresh_third_party_session env id auth_token fallback geohash kind)
  unfolding refresh_third_party_session
  refresh_third_party_session-Traced id auth_token fallback geohash kind =
      bind-Traced (third_party_answer-Traced _ _) λ _ _. silent-Traced _ (λ w. refl)

  fetch_session-Traced :
      (c : Credentials) (geohash : Option Text) (kind : SessionKind)
      → Traced (Under p) 0 Any (fetch_session env c geohash kind)
  unfolding fetch_session
  fetch_session-Traced c geohash SessionKind.email = create_session-Traced _ _ _ _ _
  fetch_session-Traced c geohash kind =
      bind-Traced (silent-Traced _ (λ w. refl))
        λ id _. refresh_third_party_session-Traced id _ _ geohash _

  store_or_cleared-Traced :
      (session : Session) (epoch : ℕ) → Traced (Under p) 0 Any (store_or_cleared env session epoch)
  unfolding store_or_cleared store_session
  store_or_cleared-Traced session epoch =
      bind-Traced (bind-Traced await-Traced λ _ _. silent-Traced _ (λ w. refl)) λ taken _.
        if-Traced taken (λ _. silent-Traced _ (λ w. refl)) (λ _. silent-Traced _ (λ w. refl))

  pub refresh_session-Traced :
      (geohash : Option Text) → Traced (Under p) 0 Any (refresh_session env geohash)
  unfolding refresh_session
  refresh_session-Traced geohash = bind-Traced await-Traced λ _ _.
      bind-Traced (silent-Traced _ (λ w. refl)) λ s _.
        bind-Traced (silent-Traced _ (λ w. refl)) λ epoch _.
          bind-Traced (fetch_session-Traced s.credentials geohash s.credentials.kind) λ r _.
            bind-Traced (store_or_cleared-Traced r.0 epoch) λ _ _. silent-Traced _ (λ w. refl)

  gated_outcome-Traced : (r : Result SignInResult) → Traced (Under p) 0 Any (gated_outcome env r)
  unfolding gated_outcome
  gated_outcome-Traced (ok result) = silent-Traced _ (λ w. refl)
  gated_outcome-Traced (err e) = bind-Traced (silent-Traced _ (λ w. refl)) λ _ _.
      bind-Traced await-Traced
        λ _ _. bind-Traced (silent-Traced _ (λ w. refl)) λ _ _. silent-Traced _ (λ w. refl)

  pub refresh_gated-Traced : Traced (Under p) 0 Any (refresh_gated env)
  unfolding refresh_gated
  refresh_gated-Traced = bind-Traced (silent-Traced _ (λ w. refl)) λ shut _.
      if-Traced shut (λ _. silent-Traced _ (λ w. refl))
        λ _.
          bind-Traced (attempted-Traced (refresh_session-Traced none)) λ r _. gated_outcome-Traced r
