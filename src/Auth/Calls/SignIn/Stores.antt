-- ===== src/Auth/Calls/SignIn/Stores.antt =====
-- src/auth.rs: what a successful sign-in has done.
use grindr_rs.Prelude.{Option, some, Text, ◌≡◌, arith, ◌∙◌}
use grindr_rs.Error.{ok}
use grindr_rs.World.{Env, World}
use grindr_rs.World.Yields.{Yields, bind-Yields, get-Yields, read-Yields, some-Yields, pure-Yields}
use grindr_rs.Auth.Session.{SessionKind, SignInResult}
use grindr_rs.Auth.Calls.Refresh.Outcome.{
  Stored, create_session-profile, third_party-profile, store_or_cleared-Yields,
}
use package.grindr_rs.Auth.Calls.SignIn.{sign_in_with_email, sign_in_with_third_party}

module _ (env : Env) where
  email-Yields :
      (address password : Text) (geohash captcha_token : Option Text) (w : World env)
      → Yields
          (sign_in_with_email env address password geohash captcha_token)
          w
          (Stored env w.auth.sign_out_epoch)
  unfolding sign_in_with_email
  email-Yields address password geohash captcha_token w =
      bind-Yields (get-Yields _ w) λ epoch v₁ h₁.
        bind-Yields (create_session-profile env _ _ _ _ _ v₁) λ sr v₂ h₂.
          bind-Yields (store_or_cleared-Yields env sr.0 epoch v₂) λ _ v₃ h₃.
            pure-Yields sr.1 v₃
              (record { session = sr.0; current = h₃.0; profile = h₂; same_epoch = h₃.1 ∙ h₁.0 })

  third_party_sign_in-Yields :
      (kind : SessionKind) (token : Text) (geohash : Option Text) (w : World env)
      → Yields
          (sign_in_with_third_party env kind token geohash)
          w
          (Stored env w.auth.sign_out_epoch)
  unfolding sign_in_with_third_party
  third_party_sign_in-Yields kind token geohash w = bind-Yields (read-Yields _ w) λ vendor v₀ h₀.
      bind-Yields (get-Yields _ v₀) λ epoch v₁ h₁. bind-Yields (some-Yields _ v₁) λ tp v₂ _.
        bind-Yields {P = λ sr u. sr.0.credentials.profile_id ≡ some sr.1.profile_id}
          (record {
            holds = λ sr u e.
                third_party-profile env.jwt tp tp.third_party_user_id kind sr.0 sr.1 (ground arith);
          })
          λ sr v₃ h₃. bind-Yields (store_or_cleared-Yields env sr.0 epoch v₃) λ _ v₄ h₄.
            pure-Yields sr.1 v₄ (record {
              session = sr.0;
              current = h₄.0;
              profile = h₃;
              same_epoch = h₄.1 ∙ ground arith;
            })

-- A sign-in with an email that succeeds has stored a session of the profile that it returns, and
-- the sign-out epoch is what it was when the sign-in began.
pub sign_in_with_email-Stored :
    (env : Env) (address password : Text) (geohash captcha_token : Option Text) (w w' : World env)
    (r : SignInResult)
    → sign_in_with_email env address password geohash captcha_token w ≡ (ok r, w')
    → Stored env w.auth.sign_out_epoch r w'
sign_in_with_email-Stored env address password geohash captcha_token w w' r e =
    (email-Yields env address password geohash captcha_token w).holds r w' e

-- A sign-in with a third party that succeeds has stored a session of the profile that it returns, and
-- the sign-out epoch is what it was when the sign-in began.
pub sign_in_with_third_party-Stored :
    (env : Env) (kind : SessionKind) (token : Text) (geohash : Option Text) (w w' : World env)
    (r : SignInResult)
    → sign_in_with_third_party env kind token geohash w ≡ (ok r, w')
    → Stored env w.auth.sign_out_epoch r w'
sign_in_with_third_party-Stored env kind token geohash w w' r e =
    (third_party_sign_in-Yields env kind token geohash w).holds r w' e
