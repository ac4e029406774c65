-- ===== src/Auth/Calls/Authorize.antt =====
-- src/auth.rs: `authorize` and the refresh after a 401.
pub mod Sends
pub mod Current
pub mod Same
use grindr_rs.Prelude.{
  is_some_and, map_option, ◌+◌, if◌then◌else◌, text_eq, Bool, true, false, Option, none, some, Text,
  ℕ,
}
use grindr_rs.Error.{session_cleared, Result, ok, err}
use grindr_rs.World.{fail, get, pure, await, Env, World, M, ◌>>=◌, ◌>>◌}
use grindr_rs.Auth.Session.{expires_before, Authorization, Session}
use package.grindr_rs.Auth.Calls.Refresh.{refresh_gated, not_signed_in}

-- `REFRESH_BUFFER_SECS`.
abbrev pub refresh_buffer_secs : ℕ
refresh_buffer_secs = 60

authorization_of : Session → Result Authorization
authorization_of s = elim s.token [
  | some token ↦
      ok (record { session_id = token.session_id; profile_id = s.credentials.profile_id })
  | none ↦ err not_signed_in
]

-- `==` on the profile ids.
unfoldable pub same_profile : Option Text → Option Text → Bool
unfolding text_eq
same_profile none none = true
same_profile (some a) (some b) = text_eq a b
same_profile a b = false

module _ (env : Env) where
  unfoldable pub expiring : World env → Result Bool
  expiring w = elim w.auth.session [
    | some s ↦ ok (expires_before s (env.unix w.turn + refresh_buffer_secs))
    | none ↦ err not_signed_in
  ]

  -- The authorization that the current session gives.
  unfoldable pub current_authorization : World env → Result Authorization
  unfolding authorization_of
  current_authorization w = elim w.auth.session [
    | some s ↦ authorization_of s
    | none ↦ err not_signed_in
  ]

  -- Under `refresh_lock`: the session may have been refreshed in the meantime.
  unfoldable pub refresh_if_still_expiring : M env (Unit {0})
  unfolding expiring
  refresh_if_still_expiring = do
    await
    await
    still ← λ w. (expiring w, w)
    if still then refresh_gated env >>= (λ refreshed. pure tt) else pure tt

  unfoldable pub authorize : M env Authorization
  unfolding expiring
  authorize = do
    await
    soon ← λ w. (expiring w, w)
    if soon then refresh_if_still_expiring else pure tt
    await
    λ w. (current_authorization w, w)

  -- Whether the refused token is still the one of the session; `none` is a signed-out client.
  unfoldable pub holds_token : Text → World env → Option Bool
  unfolding text_eq
  holds_token rejected_session_id w =
      map_option (λ s. is_some_and s.token λ t. text_eq t.session_id rejected_session_id)
        w.auth.session

  unfoldable pub refresh_after_unauthorized : Text → M env Bool
  unfolding holds_token
  refresh_after_unauthorized rejected_session_id = do
    await
    await
    held ← get (holds_token rejected_session_id)
    elim held [ none ↦ pure false | some false ↦ pure true | some true ↦ refresh_gated env ]

  unfoldable pub reauthorize_same_profile : Authorization → M env Authorization
  unfolding same_profile
  reauthorize_same_profile previous = do
    renewed ← authorize
    if same_profile renewed.profile_id previous.profile_id
        then pure renewed
        else fail session_cleared
