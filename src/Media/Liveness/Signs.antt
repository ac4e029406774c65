-- ===== src/Media/Liveness/Signs.antt =====
-- src/media/liveness.rs: the signs of life that rule out a retirement.
use grindr_rs.Prelude.{ℕ, ◌+◌, ◌<◌, false, List, [], ◌∷◌, Text, text_eq, ◌≡◌, arith, if◌then◌else◌}
use package.grindr_rs.Media.Liveness.{
  State, Stall, Event, connects, dials_host, progresses, retires, connected, dialed, progressed,
  update, stamp, may_retire, is_pooled, retire, step, run,
}

-- How often a host was dialed.
abbrev pub count_dials : Text → List Event → ℕ
count_dials host [] = 0
count_dials host (dials_host other ∷ events) =
    (if text_eq host other then 1 else 0) + count_dials host events
count_dials host (event ∷ events) = count_dials host events

one_dial : Text → Event → ℕ
one_dial host (dials_host other) = if text_eq host other then 1 else 0
one_dial host event = 0

step-dials :
    (host : Text) (s : State) (event : Event)
    → ((step s event).hosts host).dials ≡ (s.hosts host).dials + one_dial host event
unfolding step connected dialed progressed retire update one_dial
step-dials host s connects = omega arith
step-dials host s (dials_host other) = ground arith
step-dials host s (progresses other g now) = ground arith
step-dials host s (retires stall now) = ground arith

run-dials :
    (host : Text) (s : State) (events : List Event)
    → ((run s events).hosts host).dials ≡ (s.hosts host).dials + count_dials host events
unfolding run one_dial
run-dials host s [] = omega arith
run-dials host s (connects ∷ events) =
    omega (arith, run-dials host (step s connects) events, step-dials host s connects)
run-dials host s (dials_host other ∷ events) =
    omega (
      arith,
      run-dials host (step s (dials_host other)) events,
      step-dials host s (dials_host other),
    )
run-dials host s (progresses other g now ∷ events) = omega (
  arith,
  run-dials host (step s (progresses other g now)) events,
  step-dials host s (progresses other g now),
)
run-dials host s (retires stall now ∷ events) = omega (
  arith,
  run-dials host (step s (retires stall now)) events,
  step-dials host s (retires stall now),
)

not_pooled :
    (s : State) (stall : Stall) (now : ℕ)
    → stall.stamp.dials < (s.hosts stall.stamp.host).dials
    → retire s stall now ≡ (s, false)
unfolding retire may_retire is_pooled
not_pooled s stall now h = ground arith

-- A request does not retire the connection if its host was dialed since the request began: its stall
-- may be that of a new connection. Nothing changes then.
pub dialed_since :
    (s : State) (host : Text) (began now : ℕ) (events : List Event) (stall : Stall)
    → stall.stamp ≡ stamp s host began
    → 0 < count_dials host events
    → retire (run s events) stall now ≡ (run s events, false)
unfolding stamp
dialed_since s host began now events stall e h =
    not_pooled (run s events) stall now (rw e (omega (arith, run-dials host s events)))
