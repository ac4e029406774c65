-- ===== src/Tests/Transfers.antt =====
-- Instances of the rules of uploads and media.
use grindr_rs.Prelude.{
  text_eq, ℕ, ◌+◌, ◌≤◌, true, false, some, List, [], ◌∷◌, Text, codes, length, All, leb,
  if◌then◌else◌, ◌≡◌, refl, arith,
}
use grindr_rs.Error.{GrindrError, sending, headers, timeout, media_too_large, ok, err}
use grindr_rs.World.{Timeouts}
use grindr_rs.Stream.Pump.{Read, got, interrupted, forward}
use grindr_rs.Stream.Pump.Delivers.{content, Verdict, forward-Verdict}
use grindr_rs.Stream.Watchdog.{drain_allowance, start, guard, observe, note_progress}
use grindr_rs.Stream.Watchdog.Late.{Late, begun, guard-Late}
use grindr_rs.Stream.Watchdog.Ends.{guard_ends_by_limit}
use grindr_rs.Media.Hosts.{Url, visited}
use grindr_rs.Media.Hosts.Redirects.{Allowed, visited-Allowed}
use grindr_rs.Media.Transfer.{read_body}
use grindr_rs.Media.Transfer.Ceiling.{whole, joined, read_body-whole}
use grindr_rs.Media.Liveness.{
  new, Stall, stamp, Event, connects, dials_host, retires, retire, may_retire, is_quiet, is_pooled,
  unnamed, run,
}
use grindr_rs.Media.Liveness.Cooldown.{run-keeps_generation}
use grindr_rs.Media.Liveness.Signs.{count_dials, dialed_since}

abbrev reads : List Read
reads = got (1 ∷ 2 ∷ []) ∷ interrupted ∷ got (3 ∷ []) ∷ got [] ∷ []

forward-Verdict_example : Verdict 3 (content reads) (forward (λ n. true) reads 3)
forward-Verdict_example = forward-Verdict (λ n. true) reads 3

abbrev times : Timeouts
times = record { read = 10; upload = 20; stall = 30; media = 40; media_body = 50 }

abbrev checks : List (ℕ × ℕ)
checks = (100, 0) ∷ (200, 5) ∷ (400, 5) ∷ []

guard-run : guard checks (start 0 9 times) ≡ err (timeout sending)
unfolding guard start observe note_progress
guard-run = refl

guard-Late_example : Late 9 times (begun 0) checks (timeout sending)
guard-Late_example = guard-Late checks 0 9 times (timeout sending) guard-run

abbrev slow_checks : List (ℕ × ℕ)
slow_checks = (20_000, 0) ∷ (40_000, 1) ∷ (60_000, 1) ∷ (80_000, 1) ∷ []

guard_ends_by_limit_example : (e : GrindrError) × (guard slow_checks (start 0 2 times) ≡ err e)
unfolding drain_allowance
guard_ends_by_limit_example =
    guard_ends_by_limit slow_checks 0 2 20_000 times
      (omega arith, (omega arith, (omega arith, (omega arith, tt))))
      (omega arith, (omega arith, (omega arith, (omega arith, tt)))) refl

abbrev photo : Url
photo = record { scheme = codes "https"; host = some (codes "cdns.grindr.com") }

visited-Allowed_example :
    All Allowed (visited photo (photo ∷ photo ∷ []))
    × (length (visited photo (photo ∷ photo ∷ [])) ≤ 6)
visited-Allowed_example = visited-Allowed photo (photo ∷ photo ∷ [])

abbrev chunks : List Text
chunks = (1 ∷ 2 ∷ []) ∷ (3 ∷ []) ∷ []

read_body-whole_example :
    read_body 2 (whole chunks)
    ≡ (if leb (length (joined chunks)) 2 then ok (joined chunks) else err (media_too_large 2))
read_body-whole_example = read_body-whole 2 chunks

abbrev stall : Stall
stall = record {
  stamp = stamp new (codes "h") 5;
  phase = headers;
  current = true;
  redirected = false;
}

retire-run : (retire new stall 30_000).1 ≡ true
unfolding retire new stamp may_retire is_quiet is_pooled unnamed
retire-run = refl

abbrev quiet_events : List Event
quiet_events = connects ∷ dials_host (codes "h") ∷ retires stall 60_000 ∷ []

run-keeps_generation_example :
    (run (retire new stall 30_000).0 quiet_events).generation ≡ new.generation + 1
run-keeps_generation_example =
    run-keeps_generation new stall 30_000 quiet_events retire-run (tt, (tt, (omega arith, tt)))

dials-run : count_dials (codes "h") quiet_events ≡ 1
unfolding text_eq codes
dials-run = refl

dialed_since_example : retire (run new quiet_events) stall 300_000 ≡ (run new quiet_events, false)
dialed_since_example =
    dialed_since new (codes "h") 5 300_000 quiet_events stall refl (omega (arith, dials-run))
