-- ===== src/Auth/State/Events.antt =====
-- src/auth.rs: what the session channel and the events tell.
use grindr_rs.Prelude.{
  ℕ, suc, ◌+◌, ◌≤◌, Bool, true, false, Option, none, List, [], ◌∷◌, ◌≡◌, refl, ◌≢◌, arith, ◌⊎◌,
}
use grindr_rs.Error.{GrindrError, unauthorized, banned}
use package.grindr_rs.Auth.Session.{Session}
use package.grindr_rs.Auth.Gate.{record_failure_of, take_owed_recovery}
use package.grindr_rs.Auth.State.{
  AuthEvent, signed_out, banned_event, refresh_failed, refresh_recovered, AuthState, new,
  emit_refresh_failure, Op, sign_out, commit, activity, failure, put, settled, counted, told, apply,
  apply_all,
}

-- The session channel has no receiver, or it shows the session of the state.
abbrev pub InSync : AuthState → Type 0
InSync a = (a.observed ≡ false) ⊎ (a.watched ≡ a.session)

emit-InSync : (e : GrindrError) (a : AuthState) → InSync a → InSync (emit_refresh_failure e a)
unfolding emit_refresh_failure
emit-InSync e a h = ground arith

apply-InSync : (op : Op) (a : AuthState) → InSync a → InSync (apply op a)
unfolding apply
apply-InSync sign_out a h = ground arith
apply-InSync (commit session epoch) a h = ground arith
apply-InSync (activity active) a h = ground arith
apply-InSync (failure error now) a h = emit-InSync error _ h
apply-InSync (put session epoch) a h = ground arith
apply-InSync settled a h = ground arith
apply-InSync (counted error now) a h = h
apply-InSync (told error) a h = emit-InSync error a h

-- Whatever the tasks do, the session channel shows the session while it has a receiver.
pub apply_all-InSync : (ops : List Op) (a : AuthState) → InSync a → InSync (apply_all ops a)
unfolding apply_all
apply_all-InSync [] a h = h
apply_all-InSync (op ∷ ops) a h = apply_all-InSync ops (apply op a) (apply-InSync op a h)

-- How often a report of a failure, and of a recovery, was sent.
abbrev pub count_failed : List AuthEvent → ℕ
count_failed [] = 0
count_failed (refresh_failed m k ∷ es) = suc (count_failed es)
count_failed (e ∷ es) = count_failed es

abbrev pub count_recovered : List AuthEvent → ℕ
count_recovered [] = 0
count_recovered (refresh_recovered ∷ es) = suc (count_recovered es)
count_recovered (e ∷ es) = count_recovered es

abbrev owed : Bool → ℕ
owed true = 1
owed false = 0

-- Every recovery answers a failure of its own.
abbrev Answered : AuthState → Type 0
Answered a = count_recovered a.events + owed a.refresh_gate.reported ≤ count_failed a.events

emit-Answered : (e : GrindrError) (a : AuthState) → Answered a → Answered (emit_refresh_failure e a)
unfolding emit_refresh_failure
emit-Answered e a h = ground arith

apply-Answered : (op : Op) (a : AuthState) → Answered a → Answered (apply op a)
unfolding apply take_owed_recovery record_failure_of
apply-Answered sign_out a h = ground arith
apply-Answered (commit session epoch) a h = ground arith
apply-Answered (activity active) a h = ground arith
apply-Answered (failure error now) a h = emit-Answered error _ h
apply-Answered (put session epoch) a h = ground arith
apply-Answered settled a h = ground arith
apply-Answered (counted error now) a h = h
apply-Answered (told error) a h = emit-Answered error a h

apply_all-Answered : (ops : List Op) (a : AuthState) → Answered a → Answered (apply_all ops a)
unfolding apply_all
apply_all-Answered [] a h = h
apply_all-Answered (op ∷ ops) a h = apply_all-Answered ops (apply op a) (apply-Answered op a h)

-- Over any history of a new client, at most as many recoveries are reported as failures.
pub recovered-le-failed :
    (initial : Option Session) (ops : List Op)
    → let events = (apply_all ops (new initial)).events in
      count_recovered events ≤ count_failed events
unfolding new
recovered-le-failed initial ops = omega (arith, apply_all-Answered ops (new initial) (omega arith))

-- The operations that leave the state without a session, and what each of them tells the listeners.
abbrev pub Announced : Op → AuthState → Type 0
Announced sign_out a = Unit
Announced (failure (unauthorized code m) now) a =
    (apply (failure (unauthorized code m) now) a).events ≡ signed_out ∷ a.events
Announced (failure (banned info) now) a =
    (apply (failure (banned info) now) a).events ≡ banned_event info ∷ a.events
Announced (told (unauthorized code m)) a =
    (apply (told (unauthorized code m)) a).events ≡ signed_out ∷ a.events
Announced (told (banned info)) a =
    (apply (told (banned info)) a).events ≡ banned_event info ∷ a.events
Announced op a = ⊥

lost_by_failure :
    (e : GrindrError) (now : ℕ) (a : AuthState)
    → a.session ≢ none
    → (apply (failure e now) a).session ≡ none
    → Announced (failure e now) a
unfolding apply
lost_by_failure (unauthorized code m) now a h lost = refl
lost_by_failure (banned info) now a h lost = refl
lost_by_failure e now a h lost = ground arith

lost_by_telling :
    (e : GrindrError) (a : AuthState)
    → a.session ≢ none
    → (apply (told e) a).session ≡ none
    → Announced (told e) a
unfolding apply
lost_by_telling (unauthorized code m) a h lost = refl
lost_by_telling (banned info) a h lost = refl
lost_by_telling e a h lost = ground arith

-- A session is lost only by a sign-out, or by a refresh that the server answered with a 401 or a
-- ban, and the latter two are announced by their event.
pub session_lost :
    (op : Op) (a : AuthState) → a.session ≢ none → (apply op a).session ≡ none → Announced op a
unfolding apply
session_lost sign_out a h lost = tt
session_lost (commit session epoch) a h lost = ground arith
session_lost (activity active) a h lost = ground arith
session_lost (failure e now) a h lost = lost_by_failure e now a h lost
session_lost (put session epoch) a h lost = ground arith
session_lost settled a h lost = ground arith
session_lost (counted e now) a h lost = h lost
session_lost (told e) a h lost = lost_by_telling e a h lost

-- An idle client reports no failed refresh, whatever the error.
pub idle_reports_nothing :
    (e : GrindrError) (now : ℕ) (a : AuthState)
    → a.active ≡ false
    → count_failed (apply (failure e now) a).events ≡ count_failed a.events
unfolding apply
idle_reports_nothing (unauthorized code m) now a idle = refl
idle_reports_nothing (banned info) now a idle = refl
idle_reports_nothing e now a idle = ground arith
