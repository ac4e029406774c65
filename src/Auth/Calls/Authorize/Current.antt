-- ===== src/Auth/Calls/Authorize/Current.antt =====
-- src/auth.rs: the authorization of a request and the session.
use grindr_rs.Prelude.{◌≡◌, arith}
use grindr_rs.Error.{ok}
use grindr_rs.World.{Env, World, >>=-eq-ok}
use package.grindr_rs.Auth.Calls.Authorize.{Authorization, authorize, current_authorization}
use grindr_rs.Auth.Session.{Authorization}

-- A successful `authorize` returns the token and the profile of the session as it stands at the end.
pub authorize-current :
    (env : Env) (w w' : World env) (a : Authorization)
    → authorize env w ≡ (ok a, w')
    → current_authorization env w' ≡ ok a
unfolding authorize
authorize-current env w w' a e =
    let (_, v₁, _, e₁) = >>=-eq-ok _ _ w e in
    let (_, v₂, _, e₂) = >>=-eq-ok _ _ v₁ e₁ in
    let (_, v₃, _, e₃) = >>=-eq-ok _ _ v₂ e₂ in
    let (_, v₄, _, e₄) = >>=-eq-ok _ _ v₃ e₃ in ground arith
