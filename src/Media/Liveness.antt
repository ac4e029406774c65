-- ===== src/Media/Liveness.antt =====
-- src/media/liveness.rs `State`: the health of media traffic per host. A host that the map does not
-- hold has no progress and no dials, so the map is a function. A time is a number of milliseconds.
pub mod Cooldown
pub mod Layers
pub mod Signs
pub mod Unnamed
use grindr_rs.Prelude.{
  ℕ, zero, suc, ◌+◌, ◌-◌, ◌≤◌, Bool, true, false, not, ◌&&◌, ◌||◌, Option, none, some, List, [],
  ◌∷◌, Text, text_eq, is_some_and, is_none_or, ltb, leb, if◌then◌else◌, ◌==◌,
}
use grindr_rs.Error.{TimeoutPhase, headers}

abbrev pub rearm_after : ℕ
rearm_after = 120_000

pub record Host : Type 0 where
  pub last_progress : Option ℕ
  pub dials : ℕ

pub record State : Type 0 where
  pub hosts : Text → Host
  pub connections : ℕ
  pub named : ℕ
  pub armed : Bool
  pub retired_at : Option ℕ
  pub generation : ℕ

pub record Stamp : Type 0 where
  pub host : Text
  pub started : ℕ
  pub dials : ℕ
  pub unnamed : ℕ
  pub generation : ℕ

pub record Stall : Type 0 where
  pub stamp : Stamp
  pub phase : TimeoutPhase
  pub current : Bool
  pub redirected : Bool

-- `State::new`.
unfoldable pub new : State
new = record {
  hosts = λ host. record { last_progress = none; dials = 0 };
  connections = 0;
  named = 0;
  armed = true;
  retired_at = none;
  generation = 0;
}

-- The subtraction saturates.
unfoldable pub unnamed : State → ℕ
unnamed s = s.connections - s.named

unfoldable pub stamp : State → Text → ℕ → Stamp
unfolding unnamed
stamp s host now = record {
  host = host;
  started = now;
  dials = (s.hosts host).dials;
  unnamed = unnamed s;
  generation = s.generation;
}

unfoldable pub update : (Text → Host) → Text → (Host → Host) → Text → Host
unfolding text_eq
update hosts host f other = if text_eq other host then f (hosts other) else hosts other

unfoldable pub connected : State → State
connected s = record s { connections = s.connections + 1 }

unfoldable pub dialed : State → Text → State
unfolding update
dialed s host = record s {
  hosts = update s.hosts host (λ h. record h { dials = h.dials + 1 });
  named = s.named + 1;
}

unfoldable pub progressed : State → Text → ℕ → ℕ → State
unfolding update
progressed s host generation now = record s {
  hosts = update s.hosts host (λ h. record h { last_progress = some now });
  armed = if generation == s.generation then true else s.armed;
}

unfoldable pub is_headers : TimeoutPhase → Bool
is_headers headers = true
is_headers phase = false

-- The tests of `retire`.
unfoldable pub is_quiet : State → Stamp → Bool
is_quiet s stamp = is_none_or (s.hosts stamp.host).last_progress λ at. ltb at stamp.started

unfoldable pub is_pooled : State → Stall → Bool
unfolding unnamed
is_pooled s stall =
    (s.hosts stall.stamp.host).dials == stall.stamp.dials
    && leb (unnamed s) stall.stamp.unnamed
    && not stall.redirected

unfoldable pub is_armed : State → ℕ → Bool
is_armed s now = s.armed || is_some_and s.retired_at λ at. leb rearm_after (now - at)

unfoldable pub may_retire : State → Stall → ℕ → Bool
unfolding is_headers is_quiet is_pooled is_armed
may_retire s stall now =
    is_headers stall.phase
    && is_quiet s stall.stamp
    && is_pooled s stall
    && stall.current
    && is_armed s now

unfoldable pub retire : State → Stall → ℕ → State × Bool
unfolding may_retire
retire s stall now =
    if not (may_retire s stall now)
    then (s, false)
    else (record s { armed = false; retired_at = some now; generation = s.generation + 1 }, true)

-- What the tasks do to the state; a progress carries its generation and its time.
pub data Event : Type 0 where
  connects : Event
  dials_host : Text → Event
  progresses : Text → ℕ → ℕ → Event
  retires : Stall → ℕ → Event

unfoldable pub step : State → Event → State
unfolding connected dialed progressed retire
step s connects = connected s
step s (dials_host host) = dialed s host
step s (progresses host generation now) = progressed s host generation now
step s (retires stall now) = (retire s stall now).0

unfoldable pub run : State → List Event → State
unfolding step
run s [] = s
run s (event ∷ events) = run (step s event) events
