-- ===== src/Auth/Flight/Kept.antt =====
-- src/auth.rs: a token that the session does not have does not come back.
use grindr_rs.Prelude.{
  ℕ, Bool, true, false, Option, none, some, Text, text_eq, is_some_and, ◌≡◌, refl, ap, ◌∙◌, inl,
  inr, ◌⊎◌, arith,
}
use grindr_rs.Error.{GrindrError, unauthorized, banned, Result, ok, err}
use package.grindr_rs.Auth.Session.{Session}
use package.grindr_rs.Auth.State.{
  settle, set_active, clear_session, AuthState, Op, sign_out, commit, activity, failure, put,
  settled, counted, told, apply, set_session_if_current, store_if_current, note_failure,
  emit_refresh_failure, count_failure,
}
use package.grindr_rs.Auth.Flight.{Event, task, other}

-- The token of the session is the one that was refused.
abbrev pub has_token : Text → Session → Bool
has_token id session = is_some_and session.token λ t. text_eq t.session_id id

-- The session, if there is one, has another token.
abbrev pub Lacks : Text → Option Session → Type 0
Lacks id session = is_some_and session (has_token id) ≡ false

-- A session that the event may store has another token.
abbrev pub IsNewAnswer : Text → Result Session → Type 0
IsNewAnswer id (ok session) = has_token id session ≡ false
IsNewAnswer id (err e) = Unit

abbrev pub IsNewOp : Text → Op → Type 0
IsNewOp id (commit session epoch) = has_token id session ≡ false
IsNewOp id (put session epoch) = has_token id session ≡ false
IsNewOp id op = Unit

abbrev pub IsNew : Text → Event → Type 0
IsNew id (task t) = IsNewAnswer id t.answer
IsNew id (other op) = IsNewOp id op

committed :
    (session : Session) (epoch : ℕ) (a : AuthState)
    → let after = (set_session_if_current session epoch a).0.session in
      (after ≡ some session) ⊎ (after ≡ a.session)
unfolding set_session_if_current store_if_current settle
committed session epoch a = ground arith

pub commit-Lacks :
    (id : Text) (session : Session) (epoch : ℕ) (a : AuthState)
    → has_token id session ≡ false
    → Lacks id a.session
    → Lacks id (set_session_if_current session epoch a).0.session
commit-Lacks id session epoch a new h = elim (committed session epoch a) [
  | inl stored ↦ ap (λ s. is_some_and s (has_token id)) stored ∙ new
  | inr same ↦ ap (λ s. is_some_and s (has_token id)) same ∙ h
]

-- A commit that is taken stores its session.
pub taken-Lacks :
    (id : Text) (session : Session) (epoch : ℕ) (a : AuthState)
    → has_token id session ≡ false
    → (set_session_if_current session epoch a).1 ≡ true
    → Lacks id (set_session_if_current session epoch a).0.session
unfolding set_session_if_current store_if_current settle
taken-Lacks id session epoch a new taken = ground arith

failed :
    (e : GrindrError) (a : AuthState)
    → let after = (emit_refresh_failure e a).session in (after ≡ none) ⊎ (after ≡ a.session)
unfolding emit_refresh_failure clear_session
failed (unauthorized code m) a = inl refl
failed (banned info) a = inl refl
failed e a = inr (ground arith)

told-Lacks :
    (id : Text) (e : GrindrError) (a : AuthState)
    → Lacks id a.session
    → Lacks id (emit_refresh_failure e a).session
told-Lacks id e a h = elim (failed e a) [
  | inl lost ↦ ap (λ s. is_some_and s (has_token id)) lost
  | inr same ↦ ap (λ s. is_some_and s (has_token id)) same ∙ h
]

pub note_failure-Lacks :
    (id : Text) (e : GrindrError) (now : ℕ) (a : AuthState)
    → Lacks id a.session
    → Lacks id (note_failure e now a).session
unfolding note_failure count_failure
note_failure-Lacks id e now a h = told-Lacks id e (count_failure e now a) h

put-Lacks :
    (id : Text) (session : Session) (epoch : ℕ) (a : AuthState)
    → has_token id session ≡ false
    → Lacks id a.session
    → Lacks id (store_if_current session epoch a).0.session
unfolding store_if_current
put-Lacks id session epoch a new h = ground arith

pub apply-Lacks :
    (id : Text) (op : Op) (a : AuthState)
    → IsNewOp id op
    → Lacks id a.session
    → Lacks id (apply op a).session
unfolding apply clear_session set_active settle count_failure
apply-Lacks id sign_out a new h = refl
apply-Lacks id (commit session epoch) a new h = commit-Lacks id session epoch a new h
apply-Lacks id (activity active) a new h = h
apply-Lacks id (failure error now) a new h = note_failure-Lacks id error now a h
apply-Lacks id (put session epoch) a new h = put-Lacks id session epoch a new h
apply-Lacks id settled a new h = ground arith
apply-Lacks id (counted error now) a new h = h
apply-Lacks id (told error) a new h = told-Lacks id error a h
