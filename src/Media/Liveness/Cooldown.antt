-- ===== src/Media/Liveness/Cooldown.antt =====
-- src/media/liveness.rs: how soon a second retirement follows a first.
use grindr_rs.Prelude.{ℕ, ◌+◌, ◌<◌, true, false, some, List, [], ◌∷◌, All, ◌≡◌, ◌≢◌, arith}
use package.grindr_rs.Media.Liveness.{
  State, Stall, Event, connects, dials_host, progresses, retires, connected, dialed, progressed,
  may_retire, is_armed, retire, step, run, rearm_after,
}

-- No progress of the generation, and no attempt to retire as late as the end of the cooldown.
abbrev pub Cooling : ℕ → ℕ → Event → Type 0
Cooling generation at connects = Unit
Cooling generation at (dials_host host) = Unit
Cooling generation at (progresses host g now) = g ≢ generation
Cooling generation at (retires stall now) = now < at + rearm_after

-- A state that waits for its cooldown.
record Disarmed (generation at : ℕ) (s : State) : Type 0 where
  off : s.armed ≡ false
  since : s.retired_at ≡ some at
  same : s.generation ≡ generation

cannot_retire :
    (s : State) (stall : Stall) (at now : ℕ)
    → s.armed ≡ false
    → s.retired_at ≡ some at
    → now < at + rearm_after
    → may_retire s stall now ≡ false
unfolding may_retire is_armed
cannot_retire s stall at now off since early = ground arith

step-Disarmed :
    (generation at : ℕ) (s : State) (event : Event)
    → Cooling generation at event
    → Disarmed generation at s
    → Disarmed generation at (step s event)
unfolding step connected dialed progressed retire
step-Disarmed generation at s connects c d = record { off = d.off; since = d.since; same = d.same }
step-Disarmed generation at s (dials_host host) c d = record {
  off = d.off;
  since = d.since;
  same = d.same;
}
step-Disarmed generation at s (progresses host g now) c d = record {
  off = ground (arith, d.off, d.same);
  since = d.since;
  same = d.same;
}
step-Disarmed generation at s (retires stall now) c d =
    rw (cannot_retire s stall at now d.off d.since c, step, retire) d

run-Disarmed :
    (generation at : ℕ) (s : State) (events : List Event)
    → All (Cooling generation at) events
    → Disarmed generation at s
    → Disarmed generation at (run s events)
unfolding run
run-Disarmed generation at s [] c d = d
run-Disarmed generation at s (event ∷ events) c d =
    run-Disarmed generation at (step s event) events c.1 (step-Disarmed generation at s event c.0 d)

-- After a retirement no other follows, whatever the tasks do, until the new connection has made
-- progress or the cooldown of two minutes is over.
pub run-keeps_generation :
    (s : State) (stall : Stall) (at : ℕ) (events : List Event)
    → (retire s stall at).1 ≡ true
    → All (Cooling (s.generation + 1) at) events
    → (run (retire s stall at).0 events).generation ≡ s.generation + 1
unfolding retire
run-keeps_generation s stall at events done c =
    (run-Disarmed (s.generation + 1) at (retire s stall at).0 events c
      (record { off = ground arith; since = ground arith; same = ground arith })).same
