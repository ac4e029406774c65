-- ===== src/Auth/State.antt =====
-- src/auth.rs: `AuthState`, the state that all tasks of a client share, and its methods. Each method
-- is one atomic step: it runs under the write lock of the session or under one mutex.
pub mod Cell
pub mod Epoch
pub mod Events
pub mod Refine
pub mod Tickets
use grindr_rs.Prelude.{
  ℕ, zero, ◌+◌, ◌%◌, ◌^◌, Bool, true, false, not, ◌&&◌, ◌||◌, Option, none, some, List, [], ◌∷◌,
  Text, if◌then◌else◌, is_none, ◌==◌,
}
use grindr_rs.Error.{
  BanInfo, GrindrError, http, connect, timeout, auth, api, unauthorized, banned, rate_limited,
  blocked,
}
use grindr_rs.Error.Show.{show}
use package.grindr_rs.Auth.Session.{Session}
use package.grindr_rs.Auth.Gate.{
  RefreshGate, fresh_gate, record_failure_of, clear_backoff, take_owed_recovery,
}

pub data RefreshFailureKind : Type 0 where
  transport : RefreshFailureKind
  blocked_kind : RefreshFailureKind
  rate_limited_kind : RefreshFailureKind
  server : RefreshFailureKind
  session_kind : RefreshFailureKind

unfoldable pub is_transient : RefreshFailureKind → Bool
is_transient session_kind = false
is_transient kind = true

unfoldable pub classify : GrindrError → RefreshFailureKind
classify (http m) = transport
classify (connect m) = transport
classify (timeout phase) = transport
classify (blocked kind) = blocked_kind
classify rate_limited = rate_limited_kind
classify (api code m) = server
classify error = session_kind

pub data AuthEvent : Type 0 where
  signed_out : AuthEvent
  banned_event : BanInfo → AuthEvent
  refresh_failed : Text → RefreshFailureKind → AuthEvent
  refresh_recovered : AuthEvent

-- `watched` is the value of the session channel and `observed` says whether it has a receiver: a
-- `send` without one discards the value. `events` holds what was broadcast, the newest first.
pub record AuthState : Type 0 where
  pub session : Option Session
  pub sign_out_epoch : ℕ
  pub watched : Option Session
  pub observed : Bool
  pub events : List AuthEvent
  pub active : Bool
  pub refresh_gate : RefreshGate

abbrev pub u64_mod : ℕ
u64_mod = 18_446_744_073_709_551_616

-- `AuthState::new`, which also returns the first receiver of the session.
unfoldable pub new : Option Session → AuthState
new initial = record {
  session = initial;
  sign_out_epoch = 0;
  watched = initial;
  observed = true;
  events = [];
  active = true;
  refresh_gate = fresh_gate;
}

-- `watch::Sender::send`.
unfoldable pub publish : Option Session → AuthState → AuthState
publish value a = record a { watched = if a.observed then value else a.watched }

unfoldable pub broadcast : AuthEvent → AuthState → AuthState
broadcast event a = record a { events = event ∷ a.events }

unfoldable pub set_active : Bool → AuthState → AuthState
set_active active a = record a {
  active = active;
  refresh_gate = if active && not a.active then clear_backoff a.refresh_gate else a.refresh_gate;
}

unfoldable pub settle : AuthState → AuthState
unfolding broadcast
settle a =
    let (gate, owed) = take_owed_recovery a.refresh_gate in
    let settled : AuthState = record a { refresh_gate = gate } in
    if owed then broadcast refresh_recovered settled else settled

-- What is done under the lock of the session: the new state, and whether the session was taken.
unfoldable pub store_if_current : Session → ℕ → AuthState → AuthState × Bool
unfolding publish
store_if_current session epoch a =
    if not (a.sign_out_epoch == epoch)
    then (a, false)
    else (publish (some session) (record a { session = some session }), true)

-- The whole, if no other task comes between the lock of the session and that of the gate. The code does
-- not wait in between.
unfoldable pub set_session_if_current : Session → ℕ → AuthState → AuthState × Bool
unfolding settle store_if_current
set_session_if_current session epoch a =
    let (after, taken) = store_if_current session epoch a in
    if taken then (settle after, true) else (after, false)

unfoldable pub clear_session : AuthState → AuthState
unfolding publish
clear_session a = record (publish none (record a { session = none })) {
  sign_out_epoch = (a.sign_out_epoch + 1) % u64_mod;
  refresh_gate = fresh_gate;
}

-- `emit_refresh_failure`.
unfoldable pub emit_refresh_failure : GrindrError → AuthState → AuthState
unfolding clear_session broadcast
emit_refresh_failure (unauthorized code m) a = broadcast signed_out (clear_session a)
emit_refresh_failure (banned info) a = broadcast (banned_event info) (clear_session a)
emit_refresh_failure error a =
    if is_none a.session || not a.active
    then a
    else broadcast (refresh_failed (show error) (classify error))
        (record a { refresh_gate = record a.refresh_gate { reported = true } })

-- `record_failure_of` on the gate of the state.
unfoldable pub count_failure : GrindrError → ℕ → AuthState → AuthState
count_failure error now a = record a { refresh_gate = record_failure_of a.refresh_gate error now }

-- The error branch of `refresh_gated`, if the lock of the session is free, so that the task does not wait
-- after it has counted the failure.
unfoldable pub note_failure : GrindrError → ℕ → AuthState → AuthState
unfolding count_failure emit_refresh_failure
note_failure error now a = emit_refresh_failure error (count_failure error now a)

-- What any task can do to the state. The steps of `commit`, and of `failure`, are there on their own too:
-- `put` and `settled`, `counted` and `told`.
pub data Op : Type 0 where
  sign_out : Op
  commit : Session → ℕ → Op
  activity : Bool → Op
  failure : GrindrError → ℕ → Op
  put : Session → ℕ → Op
  settled : Op
  counted : GrindrError → ℕ → Op
  told : GrindrError → Op

unfoldable pub apply : Op → AuthState → AuthState
unfolding clear_session set_session_if_current set_active note_failure store_if_current settle
    count_failure emit_refresh_failure
apply sign_out a = clear_session a
apply (commit session epoch) a = (set_session_if_current session epoch a).0
apply (activity active) a = set_active active a
apply (failure error now) a = note_failure error now a
apply (put session epoch) a = (store_if_current session epoch a).0
apply settled a = settle a
apply (counted error now) a = count_failure error now a
apply (told error) a = emit_refresh_failure error a

unfoldable pub apply_all : List Op → AuthState → AuthState
apply_all [] a = a
apply_all (op ∷ ops) a = apply_all ops (apply op a)
