-- ===== src/Auth/Flight.antt =====
-- src/auth.rs: many tasks that refresh the session behind `refresh_lock`: `authorize` before the token
-- runs out, `refresh_after_unauthorized` after it was refused. A history interleaves their steps, from
-- one wait to the next, with what else is done to the state; the client's own `refresh_session` takes no
-- lock, and its store is a `commit` there.
pub mod Does
pub mod Ends
pub mod Held
pub mod Kept
pub mod Moves
pub mod Mutex
pub mod Once
use grindr_rs.Prelude.{
  ℕ, ◌+◌, Option, none, some, List, [], ◌∷◌, Text, text_eq, is_some_and, and_then, if◌then◌else◌,
  ◌==◌,
}
use grindr_rs.Error.{session_cleared, Result, ok, err}
use package.grindr_rs.Auth.Session.{Session, expires_before}
use package.grindr_rs.Auth.Gate.{is_blocked}
use package.grindr_rs.Auth.State.{AuthState, Op, apply, set_session_if_current, note_failure}
use package.grindr_rs.Auth.Calls.Authorize.{refresh_buffer_secs}
use package.grindr_rs.Auth.Calls.Refresh.{not_signed_in}

-- Why a task wants a new token: the old one runs out soon, or the server refused it.
pub data Need : Type 0 where
  soon : Need
  refused : Text → Need

-- Where a task stands.
pub data Stage : Type 0 where
  starting : Stage
  wants : Need → Stage
  holds : Need → Stage
  passed : Need → Stage
  asking : Need → Session → ℕ → Stage
  done : Stage

-- `stored` holds the needs of the refreshes that stored a session.
pub record Shared : Type 0 where
  pub auth : AuthState
  pub lock : Option ℕ
  pub stored : List Need

-- The session, if it has to be refreshed.
unfoldable pub needed : Need → AuthState → ℕ → Option Session
unfolding text_eq expires_before
needed soon a now =
    and_then a.session λ s. if expires_before s (now + refresh_buffer_secs) then some s else none
needed (refused id) a now =
    and_then a.session
      λ s. if is_some_and s.token (λ t. text_eq t.session_id id) then some s else none

-- A step of a task: who it is, the clocks, and the answer of the server if it asked.
pub record Turn : Type 0 where
  pub task : ℕ
  pub now : ℕ
  pub instant : ℕ
  pub answer : Result Session

-- The end of `refresh_gated`; the guard of the lock is dropped.
unfoldable pub release : Shared → Stage × Shared
release s = (done, record s { lock = none })

-- A task that has the lock looks again.
unfoldable pub look_again : Turn → Need → Option Session → Shared → Stage × Shared
unfolding release is_blocked
look_again t need none s = release s
look_again t need (some session) s =
    if is_blocked s.auth.refresh_gate t.instant then release s else (passed need, s)

-- The start of `refresh_session`, which reads the session.
unfoldable pub ask : Turn → Need → Option Session → Shared → Stage × Shared
unfolding release note_failure
ask t need none s = release (record s { auth = note_failure not_signed_in t.instant s.auth })
ask t need (some session) s = (asking need session s.auth.sign_out_epoch, s)

unfoldable pub take : Turn → Need → Option ℕ → Shared → Stage × Shared
take t need none s = (holds need, record s { lock = some t.task })
take t need (some other) s = (wants need, s)

-- The answer, which is stored if the session has not ended since.
unfoldable pub answered : Turn → Need → ℕ → Result Session → Shared → Stage × Shared
unfolding release set_session_if_current note_failure
answered t need epoch (err e) s = release (record s { auth = note_failure e t.instant s.auth })
answered t need epoch (ok session) s =
    let (after, taken) = set_session_if_current session epoch s.auth in
    release (
      if taken
      then record s { auth = after; stored = need ∷ s.stored }
      else record s { auth = note_failure session_cleared t.instant s.auth })

unfoldable pub first_look : Option Session → Stage
first_look none = done
first_look (some session) = wants soon

unfoldable pub step : Turn → Stage → Shared → Stage × Shared
unfolding needed look_again ask take answered first_look
step t starting s = (first_look (needed soon s.auth t.now), s)
step t (wants need) s = take t need s.lock s
step t (holds need) s = look_again t need (needed need s.auth t.now) s
step t (passed need) s = ask t need s.auth.session s
step t (asking need session epoch) s = answered t need epoch t.answer s
step t done s = (done, s)

-- All tasks.
pub record System : Type 0 where
  pub shared : Shared
  pub stages : ℕ → Stage

pub data Event : Type 0 where
  task : Turn → Event
  other : Op → Event

unfoldable pub set_stage : (ℕ → Stage) → ℕ → Stage → ℕ → Stage
set_stage stages i stage j = if j == i then stage else stages j

unfoldable pub happen : Event → System → System
unfolding step set_stage apply
happen (task t) y =
    let (stage, shared) = step t (y.stages t.task) y.shared in
    record { shared = shared; stages = set_stage y.stages t.task stage }
happen (other op) y = record y { shared = record y.shared { auth = apply op y.shared.auth } }

unfoldable pub happen_all : List Event → System → System
unfolding happen
happen_all [] y = y
happen_all (e ∷ es) y = happen_all es (happen e y)
