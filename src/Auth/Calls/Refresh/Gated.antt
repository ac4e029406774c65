-- ===== src/Auth/Calls/Refresh/Gated.antt =====
-- src/auth.rs `refresh_gated`: what a refresh behind the gate does.
use grindr_rs.Prelude.{inr, inl, true, false, none, ◌≡◌, refl, arith, Bool-cases}
use grindr_rs.Error.{Result, ok, err}
use grindr_rs.World.{Env, World, ◌>>=◌, wait}
use grindr_rs.Auth.Session.{SignInResult}
use package.grindr_rs.Auth.Calls.Refresh.{
  gate_blocked, gated_outcome, refresh_session, refresh_gated,
}
use package.grindr_rs.Auth.Calls.Refresh.Outcome.{Stored, refresh_session-Stored}

module _ (env : Env) where
  -- A gate that is shut keeps a refresh from being tried: nothing is sent and nothing changes.
  pub gate_shut : (w : World env) → gate_blocked env w ≡ true → refresh_gated env w ≡ (ok false, w)
  unfolding refresh_gated ◌>>=◌
  gate_shut w h = rw h refl

  outcome_true :
      (r : Result SignInResult) (v w' : World env)
      → gated_outcome env r v ≡ (ok true, w')
      → (result : SignInResult) × (r ≡ ok result) × (v ≡ w')
  unfolding gated_outcome ◌>>=◌
  outcome_true (ok result) v w' e = (result, refl, ground arith)
  outcome_true (err x) v w' e = absurd (ground arith)

  -- A refresh behind the gate that reports success found the gate open and stored a session, and the
  -- sign-out epoch is what it was when the refresh read the session.
  pub refresh_gated-Stored :
      (w w' : World env)
      → refresh_gated env w ≡ (ok true, w')
      → (gate_blocked env w ≡ false)
        × ((r : SignInResult) × Stored env (wait w).auth.sign_out_epoch r w')
  unfolding refresh_gated ◌>>=◌
  refresh_gated-Stored w w' e = elim (Bool-cases (gate_blocked env w)) [
    | inl shut ↦ absurd (ground arith)
    | inr open_gate ↦
        let (result, here, same) =
          outcome_true (refresh_session env none w).0 (refresh_session env none w).1 w'
            (ground arith) in
        (open_gate, (result, refresh_session-Stored env none w w' result (ground arith)))
  ]
