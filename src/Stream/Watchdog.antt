-- ===== src/Stream/Watchdog.antt =====
-- src/stream/watchdog.rs: the deadline of an upload, which moves with the bytes that were sent. A
-- time is a number of milliseconds.
pub mod Ends
pub mod Late
use grindr_rs.Prelude.{
  ℕ, ◌+◌, ◌*◌, ◌/◌, ◌<◌, min, Bool, true, false, List, [], ◌∷◌, ltb, if◌then◌else◌,
}
use grindr_rs.Error.{GrindrError, TimeoutPhase, sending, headers, timeout, Result, ok, err}
use grindr_rs.World.{Timeouts}

abbrev pub connect_timeout : ℕ
connect_timeout = 30_000

abbrev pub drain_floor_bytes_per_second : ℕ
drain_floor_bytes_per_second = 8_000

abbrev pub max_drain_allowance : ℕ
max_drain_allowance = 600_000

abbrev pub u64_max : ℕ
u64_max = 18_446_744_073_709_551_615

unfoldable pub drain_allowance : ℕ → ℕ
drain_allowance body_size =
    min (min (body_size * 1000) u64_max / drain_floor_bytes_per_second) max_drain_allowance

-- `sent` of the upload is the argument of `observe`.
pub record Watchdog : Type 0 where
  pub total : ℕ
  pub timeouts : Timeouts
  pub last_sent : ℕ
  pub deadline : ℕ

unfoldable pub start : ℕ → ℕ → Timeouts → Watchdog
start now total timeouts = record {
  total = total;
  timeouts = timeouts;
  last_sent = 0;
  deadline = now + connect_timeout + timeouts.stall;
}

-- The first `if` of `observe`.
unfoldable pub note_progress : Watchdog → ℕ → ℕ → Watchdog
unfolding drain_allowance
note_progress w sent now =
    if ltb w.last_sent sent
    then record w {
      last_sent = sent;
      deadline =
          now
          + (if ltb sent w.total
              then w.timeouts.stall
              else w.timeouts.read + drain_allowance w.total);
    }
    else w

unfoldable pub observe : Watchdog → ℕ → ℕ → Result (Unit {0}) × Watchdog
unfolding note_progress
observe w sent now =
    let noted = note_progress w sent now in
    (
      if ltb now noted.deadline
          then ok tt
          else err (timeout (if ltb noted.last_sent noted.total then sending else headers)),
      noted,
    )

-- The loop of `guard` while there is no response: the times of the checks, with the bytes sent.
unfoldable pub guard : List (ℕ × ℕ) → Watchdog → Result (Unit {0})
unfolding observe
guard [] w = ok tt
guard ((now, sent) ∷ checks) w = elim (observe w sent now).0 [
  | ok _ ↦ guard checks (observe w sent now).1
  | err e ↦ err e
]
