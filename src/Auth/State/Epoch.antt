-- ===== src/Auth/State/Epoch.antt =====
-- src/auth.rs: the sign-out epoch, over any history of the state.
use grindr_rs.Prelude.{ℕ, ◌+◌, ◌%◌, ◌<◌, true, false, some, List, [], ◌∷◌, ◌≡◌, refl, arith}
use grindr_rs.Error.{GrindrError, unauthorized, banned}
use package.grindr_rs.Auth.Session.{Session}
use package.grindr_rs.Auth.State.{
  AuthState, u64_mod, set_session_if_current, emit_refresh_failure, Op, sign_out, commit, activity,
  failure, put, settled, counted, told, apply, apply_all,
}

-- How often an operation ends the session.
abbrev ends_session : GrindrError → ℕ
ends_session (unauthorized code m) = 1
ends_session (banned info) = 1
ends_session error = 0

abbrev pub ends : Op → ℕ
ends sign_out = 1
ends (failure error now) = ends_session error
ends (told error) = ends_session error
ends op = 0

abbrev pub count_ends : List Op → ℕ
count_ends [] = 0
count_ends (op ∷ ops) = ends op + count_ends ops

emit-epoch :
    (e : GrindrError) (a : AuthState)
    → a.sign_out_epoch < u64_mod
    → (emit_refresh_failure e a).sign_out_epoch ≡ (a.sign_out_epoch + ends_session e) % u64_mod
unfolding emit_refresh_failure
emit-epoch e a h = ground arith

apply-epoch :
    (op : Op) (a : AuthState)
    → a.sign_out_epoch < u64_mod
    → (apply op a).sign_out_epoch ≡ (a.sign_out_epoch + ends op) % u64_mod
unfolding apply
apply-epoch sign_out a h = refl
apply-epoch (commit session epoch) a h = ground arith
apply-epoch (activity active) a h = ground arith
apply-epoch (failure error now) a h = emit-epoch error _ h
apply-epoch (put session epoch) a h = ground arith
apply-epoch settled a h = ground arith
apply-epoch (counted error now) a h = ground arith
apply-epoch (told error) a h = emit-epoch error a h

pub apply_all-epoch :
    (ops : List Op) (a : AuthState)
    → a.sign_out_epoch < u64_mod
    → (apply_all ops a).sign_out_epoch ≡ (a.sign_out_epoch + count_ends ops) % u64_mod
unfolding apply_all
apply_all-epoch [] a h = omega arith
apply_all-epoch (op ∷ ops) a h =
    let here = apply-epoch op a h in
    omega (arith, here, apply_all-epoch ops (apply op a) (omega arith))

-- A session that was asked for at the epoch of `a`, a `u64`, is refused, and nothing changes, if in the
-- meantime the session ended at least once and fewer than 2^64 times.
pub stale_session_refused :
    (a : AuthState) (ops : List Op) (session : Session)
    → a.sign_out_epoch < u64_mod
    → 0 < count_ends ops
    → count_ends ops < u64_mod
    → set_session_if_current session a.sign_out_epoch (apply_all ops a) ≡ (apply_all ops a, false)
unfolding set_session_if_current
stale_session_refused a ops session h some_end few = ground (arith, apply_all-epoch ops a)

-- A session that was asked for at the epoch of `a`, a `u64`, is stored, and the epoch stays, if the session
-- has not ended in the meantime.
pub current_session_taken :
    (a : AuthState) (ops : List Op) (session : Session)
    → a.sign_out_epoch < u64_mod
    → count_ends ops ≡ 0
    → let taken = set_session_if_current session a.sign_out_epoch (apply_all ops a) in
      (taken.1 ≡ true)
      × (taken.0.session ≡ some session)
      × (taken.0.sign_out_epoch ≡ a.sign_out_epoch)
unfolding set_session_if_current
current_session_taken a ops session h no_end = ground (arith, apply_all-epoch ops a)

pub taken_stores :
    (session : Session) (epoch : ℕ) (a : AuthState)
    → (set_session_if_current session epoch a).1 ≡ true
    → ((set_session_if_current session epoch a).0.session ≡ some session)
      × ((set_session_if_current session epoch a).0.sign_out_epoch ≡ epoch)
unfolding set_session_if_current
taken_stores session epoch a h = ground arith
