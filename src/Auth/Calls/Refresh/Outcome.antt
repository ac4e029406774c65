-- ===== src/Auth/Calls/Refresh/Outcome.antt =====
-- src/auth.rs: what a successful refresh has done.
use grindr_rs.Prelude.{true, Option, some, Text, ℕ, ◌≡◌, arith, ◌∙◌}
use grindr_rs.Error.{session_cleared, ok}
use grindr_rs.World.{Env, World, wait}
use grindr_rs.Auth.Session.{
  Credentials, ThirdPartySession, SessionResponse, SessionKind, SignInResult, AuthBody, Session,
}
use package.grindr_rs.Auth.Calls.Refresh.{
  session_cleared, current_session, Credentials, ThirdPartySession, store_session,
  refresh_third_party_session, SessionKind, session_from_third_party, session_from_response,
  refresh_session, store_or_cleared, SignInResult, fetch_session, AuthBody, create_session,
}
use grindr_rs.Auth.Claims.{session_from_third_party, session_from_response, JwtLib}
use grindr_rs.World.Yields.{
  get-Yields, fail-Yields, read-Yields, pure-Yields, if-Yields, await-Yields, some-Yields,
  bind-Yields, Yields,
}
use grindr_rs.Auth.State.Epoch.{taken_stores}

module _ (jwt : JwtLib) where
  response-profile :
      (resp : SessionResponse) (address : Text) (kind : SessionKind) (id : Option Text)
      (s : Session) (r : SignInResult)
      → session_from_response jwt resp address kind id ≡ ok (s, r)
      → s.credentials.profile_id ≡ some r.profile_id
  unfolding session_from_response
  response-profile resp address kind id s r e = ground arith

  pub third_party-profile :
      (tp : ThirdPartySession) (fallback : Text) (kind : SessionKind) (s : Session)
      (r : SignInResult)
      → session_from_third_party jwt tp fallback kind ≡ ok (s, r)
      → s.credentials.profile_id ≡ some r.profile_id
  unfolding session_from_third_party
  third_party-profile tp fallback kind s r e = ground arith

module _ (env : Env) where
  pub create_session-profile :
      (path : Text) (body : AuthBody) (address : Text) (kind : SessionKind) (id : Option Text)
      (w : World env)
      → Yields
          (create_session env path body address kind id)
          w
          (λ sr v. sr.0.credentials.profile_id ≡ some sr.1.profile_id)
  unfolding create_session
  create_session-profile path body address kind id w = bind-Yields (some-Yields _ w) λ resp v _.
      record {
        holds = λ sr u e. response-profile env.jwt resp address kind id sr.0 sr.1 (ground arith);
      }

  third_party-Yields :
      (id auth_token fallback : Text) (geohash : Option Text) (kind : SessionKind) (w : World env)
      → Yields
          (refresh_third_party_session env id auth_token fallback geohash kind)
          w
          (λ sr v. sr.0.credentials.profile_id ≡ some sr.1.profile_id)
  unfolding refresh_third_party_session
  third_party-Yields id auth_token fallback geohash kind w = bind-Yields (some-Yields _ w) λ tp v _.
      record {
        holds = λ sr u e. third_party-profile env.jwt tp fallback kind sr.0 sr.1 (ground arith);
      }

  fetch_session-profile :
      (c : Credentials) (geohash : Option Text) (kind : SessionKind) (w : World env)
      → Yields
          (fetch_session env c geohash kind)
          w
          (λ sr v. sr.0.credentials.profile_id ≡ some sr.1.profile_id)
  unfolding fetch_session
  fetch_session-profile c geohash SessionKind.email w = create_session-profile _ _ _ _ _ w
  fetch_session-profile c geohash kind w =
      bind-Yields (some-Yields _ w) λ id v _. third_party-Yields id _ _ geohash _ v

  -- The session and the epoch after a refresh that stored the session.
  pub record Stored (epoch : ℕ) (r : SignInResult) (w : World env) : Type 0 where
    pub session : Session
    pub current : w.auth.session ≡ some session
    pub profile : session.credentials.profile_id ≡ some r.profile_id
    pub same_epoch : w.auth.sign_out_epoch ≡ epoch

  store_session-Yields :
      (session : Session) (epoch : ℕ) (w : World env)
      → Yields (store_session env session epoch) w (λ taken v.
        taken ≡ true → (v.auth.session ≡ some session) × (v.auth.sign_out_epoch ≡ epoch))
  unfolding store_session
  store_session-Yields session epoch w =
      bind-Yields (await-Yields w)
        λ _ u _. record { holds = λ taken v e h. ground (arith, taken_stores session epoch u.auth) }

  pub store_or_cleared-Yields :
      (session : Session) (epoch : ℕ) (w : World env)
      → Yields
          (store_or_cleared env session epoch)
          w
          (λ _ v. (v.auth.session ≡ some session) × (v.auth.sign_out_epoch ≡ epoch))
  unfolding store_or_cleared
  store_or_cleared-Yields session epoch w =
      bind-Yields (store_session-Yields session epoch w) λ taken v h.
        if-Yields taken (λ e. pure-Yields tt v (h e)) (λ _. fail-Yields session_cleared v)

  pub refresh_session-Yields :
      (geohash : Option Text) (w : World env)
      → Yields (refresh_session env geohash) w (Stored (wait w).auth.sign_out_epoch)
  unfolding refresh_session
  refresh_session-Yields geohash w = bind-Yields (await-Yields w) λ _ v₁ h₁.
      bind-Yields (read-Yields (current_session env) v₁) λ s v₂ h₂.
        bind-Yields (get-Yields _ v₂) λ epoch v₃ h₃.
          bind-Yields (fetch_session-profile s.credentials geohash s.credentials.kind v₃)
            λ sr v₄ h₄. bind-Yields (store_or_cleared-Yields sr.0 epoch v₄) λ _ v₅ h₅.
              pure-Yields sr.1 v₅ (record {
                session = sr.0;
                current = h₅.0;
                profile = h₄;
                same_epoch = h₅.1 ∙ ground arith;
              })

-- A refresh that succeeds has stored a session of the profile that it returns, and the
-- sign-out epoch is at its end what it was when the refresh read the session.
pub refresh_session-Stored :
    (env : Env) (geohash : Option Text) (w w' : World env) (r : SignInResult)
    → refresh_session env geohash w ≡ (ok r, w')
    → Stored env (wait w).auth.sign_out_epoch r w'
refresh_session-Stored env geohash w w' r e = (refresh_session-Yields env geohash w).holds r w' e
