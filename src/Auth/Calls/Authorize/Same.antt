-- ===== src/Auth/Calls/Authorize/Same.antt =====
-- src/auth.rs: the authorization of a retry.
use grindr_rs.Prelude.{
  inr, inl, Bool-cases, true, Option, none, some, Text, ◌≡◌, refl, arith, ap, eq_of_text_eq,
}
use grindr_rs.Error.{ok}
use grindr_rs.World.{Env, World, >>=-eq-ok}
use grindr_rs.Auth.Session.{Authorization}
use package.grindr_rs.Auth.Calls.Authorize.{
  same_profile, current_authorization, reauthorize_same_profile,
}
use package.grindr_rs.Auth.Calls.Authorize.Current.{authorize-current}

same_profile-eq : (p q : Option Text) → same_profile p q ≡ true → p ≡ q
unfolding same_profile
same_profile-eq none none h = refl
same_profile-eq (some a) (some b) h = ap some (eq_of_text_eq a b h)
same_profile-eq none (some b) h = absurd (ground arith)
same_profile-eq (some a) none h = absurd (ground arith)

-- A new authorization for a retry is that of the session as it stands then, and has the profile of
-- the one before.
pub reauthorize-same :
    (env : Env) (previous a : Authorization) (w w' : World env)
    → reauthorize_same_profile env previous w ≡ (ok a, w')
    → (a.profile_id ≡ previous.profile_id) × (current_authorization env w' ≡ ok a)
unfolding reauthorize_same_profile
reauthorize-same env previous a w w' e =
    let (renewed, v, here, rest) = >>=-eq-ok _ _ w e in
    elim (Bool-cases (same_profile renewed.profile_id previous.profile_id)) [
      | inl same ↦
          let eq : (renewed ≡ a) × (v ≡ w') = ground arith in
          let p = same_profile-eq renewed.profile_id previous.profile_id same in
          (ground arith, authorize-current env w w' a (ground arith))
      | inr differs ↦ absurd (ground arith)
    ]
