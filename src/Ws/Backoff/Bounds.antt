-- ===== src/Ws/Backoff/Bounds.antt =====
-- src/ws.rs: how long the task waits before it connects again.
use grindr_rs.Prelude.{
  ◌≤◌, Bool, true, false, List, [], ◌∷◌, All, if◌then◌else◌, ◌≡◌, arith, inl, inr, Option-cases,
}
use grindr_rs.Error.{auth, Result, ok, err}
use package.grindr_rs.Ws.Backoff.{
  Reconnect, Pause, at_once, for_session, for_time, fresh, resumed, after_error, after_run,
  deflate_answer, Round, go_round, pauses, first_backoff, max_backoff,
}
use package.grindr_rs.Ws.Backoff

-- No longer than half a minute, and no shorter than a second.
abbrev pub Moderate : Pause → Type 0
Moderate at_once = Unit
Moderate for_session = Unit
Moderate (for_time t) = (1_000 ≤ t) × (t ≤ 30_000)

abbrev InBounds : Reconnect → Type 0
InBounds r = (1_000 ≤ r.backoff) × (r.backoff ≤ 30_000)

after_error-Moderate :
    (has_session : Bool) (r : Reconnect)
    → InBounds r
    → Moderate (after_error has_session r).0 × InBounds (after_error has_session r).1
unfolding after_error
after_error-Moderate true r h = (h, (omega (arith, h), omega (arith, h)))
after_error-Moderate false r h = (tt, (omega arith, omega arith))

after_run-Moderate :
    (result : Result (Unit {0})) (has_session : Bool) (r : Reconnect)
    → InBounds r
    → Moderate (after_run result has_session r).0 × InBounds (after_run result has_session r).1
unfolding after_run
after_run-Moderate (ok _) has_session r h = (tt, (omega arith, omega arith))
after_run-Moderate (err (auth m)) has_session r h = (tt, (omega arith, omega arith))
after_run-Moderate (err e) has_session r h = after_error-Moderate has_session r h

deflate-backoff :
    (negotiated : Bool) (r : Reconnect) → (deflate_answer negotiated r).1.backoff ≡ r.backoff
unfolding deflate_answer
deflate-backoff negotiated r = ground arith

connect-backoff : (round : Round) (r : Reconnect) → (Backoff.connect round r).1.backoff ≡ r.backoff
unfolding Backoff.connect
connect-backoff round r = elim (Option-cases round.negotiated) [
  | inl e ↦ ground arith
  | inr (negotiated, e) ↦ ground (arith, deflate-backoff negotiated r)
]

go_round-Moderate :
    (round : Round) (r : Reconnect)
    → InBounds r
    → Moderate (go_round round r).0 × InBounds (go_round round r).1
unfolding go_round resumed
go_round-Moderate round r h =
    let before = if round.was_idle then resumed r else r in
    let kept = connect-backoff round before in
    let fine : InBounds before = ground arith in
    after_run-Moderate (Backoff.connect round before).0 round.has_session
      (Backoff.connect round before).1 (omega (arith, kept, fine.0), omega (arith, kept, fine.1))

pauses-Bounded : (rounds : List Round) (r : Reconnect) → InBounds r → All Moderate (pauses rounds r)
unfolding pauses
pauses-Bounded [] r h = tt
pauses-Bounded (round ∷ rounds) r h =
    let step = go_round-Moderate round r h in
    (step.0, pauses-Bounded rounds (go_round round r).1 step.1)

-- Whatever the connections come to, the task never sleeps for less than a second or for more than
-- half a minute before it connects again.
pub pauses-Moderate : (rounds : List Round) → All Moderate (pauses rounds fresh)
unfolding fresh
pauses-Moderate rounds = pauses-Bounded rounds fresh (omega arith, omega arith)
