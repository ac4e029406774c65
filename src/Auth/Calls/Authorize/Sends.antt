-- ===== src/Auth/Calls/Authorize/Sends.antt =====
-- src/auth.rs: what authorizing a request leaves on the wire.
use grindr_rs.Prelude.{
  eq_of_text_eq, ap, refl, ◌≡◌, Bool, true, false, Option, none, some, Text, arith,
}
use grindr_rs.World.{pure, Env}
use grindr_rs.Request.Trail.{
  Under, fails-Traced, returns-Traced, if-Traced, Traced, Any, bind-Traced, silent-Traced,
  await-Traced,
}
use package.grindr_rs.Auth.Calls.Authorize.{
  session_cleared, refresh_gated, Authorization, pure, reauthorize_same_profile, same_profile,
  refresh_after_unauthorized, refresh_if_still_expiring, authorize,
}
use grindr_rs.Auth.Calls.Refresh.Sends.{refresh_gated-Traced}
use grindr_rs.Auth.Session.{Authorization}
use grindr_rs.Auth.Calls.Refresh.{refresh_gated}
use grindr_rs.Error.{session_cleared}

module _ (env : Env) (p : Option Text) where
  refresh_if_still_expiring-Traced : Traced (Under p) 0 Any (refresh_if_still_expiring env)
  unfolding refresh_if_still_expiring
  refresh_if_still_expiring-Traced = bind-Traced await-Traced λ _ _. bind-Traced await-Traced λ _ _.
      bind-Traced (silent-Traced _ (λ w. refl)) λ still _.
        if-Traced still
          (λ _. bind-Traced (refresh_gated-Traced env p) λ _ _. silent-Traced _ (λ w. refl))
          (λ _. silent-Traced _ (λ w. refl))

  pub authorize-Traced : Traced (Under p) 0 Any (authorize env)
  unfolding authorize
  authorize-Traced = bind-Traced await-Traced λ _ _.
      bind-Traced (silent-Traced _ (λ w. refl)) λ soon _.
        bind-Traced
          (if-Traced soon (λ _. refresh_if_still_expiring-Traced)
            (λ _. silent-Traced _ (λ w. refl)))
          λ _ _. bind-Traced await-Traced λ _ _. silent-Traced _ (λ w. refl)

  pub refresh_after_unauthorized-Traced :
      (id : Text) → Traced (Under p) 0 Any (refresh_after_unauthorized env id)
  unfolding refresh_after_unauthorized
  refresh_after_unauthorized-Traced id = bind-Traced await-Traced λ _ _.
      bind-Traced await-Traced
        λ _ _. bind-Traced (silent-Traced _ (λ w. refl)) λ held _. by_token held
    where
      by_token :
          (held : Option Bool)
          → Traced {env = env} (Under p) 0 Any (elim held [
            | none ↦ pure false
            | some false ↦ pure true
            | some true ↦ refresh_gated env
          ])
      by_token none = silent-Traced _ (λ w. refl)
      by_token (some false) = silent-Traced _ (λ w. refl)
      by_token (some true) = refresh_gated-Traced env p

eq_of_same_profile : (a b : Option Text) → same_profile a b ≡ true → a ≡ b
unfolding same_profile
eq_of_same_profile none none h = refl
eq_of_same_profile none (some b) h = ground arith
eq_of_same_profile (some a) none h = ground arith
eq_of_same_profile (some a) (some b) h = ap some (eq_of_text_eq a b h)

module _ (env : Env) where
  -- A renewed authorization is of the same profile.
  pub reauthorize-Traced :
      (previous : Authorization)
      → Traced
          (Under previous.profile_id)
          0
          (λ renewed. renewed.profile_id ≡ previous.profile_id)
          (reauthorize_same_profile env previous)
  unfolding reauthorize_same_profile
  reauthorize-Traced previous = bind-Traced (authorize-Traced env previous.profile_id) λ renewed _.
      if-Traced (same_profile renewed.profile_id previous.profile_id)
        (λ h. returns-Traced renewed (eq_of_same_profile _ _ h)) (λ _. fails-Traced session_cleared)
