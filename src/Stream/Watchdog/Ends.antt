-- ===== src/Stream/Watchdog/Ends.antt =====
-- src/stream/watchdog.rs: how long an upload can last under its watchdog.
use grindr_rs.Prelude.{
  ℕ, suc, ◌+◌, ◌*◌, ◌≤◌, ◌<◌, true, List, [], ◌∷◌, any, All, ltb, leb, if◌then◌else◌, ◌≡◌, refl,
  arith, inl, inr, Bool-cases,
}
use native.Mathlib.Nat.{mul-le-mul}
use grindr_rs.Error.{headers, sending, timeout, GrindrError, err}
use grindr_rs.World.{Timeouts}
use package.grindr_rs.Stream.Watchdog.{
  Watchdog, start, note_progress, observe, guard, drain_allowance, connect_timeout,
}

-- The first check comes within `gap` of the start, each further one within `gap` of the one before.
abbrev pub IsSpaced : ℕ → ℕ → List (ℕ × ℕ) → Type 0
IsSpaced gap last [] = Unit
IsSpaced gap last ((now, sent) ∷ checks) = (now ≤ last + gap) × IsSpaced gap now checks

module _ (begin total gap : ℕ) (timeouts : Timeouts) where
  -- What an upload gets for its bytes, and for the answer once the whole body is sent.
  abbrev pub for_bytes : ℕ → ℕ
  for_bytes sent = sent * (timeouts.stall + gap)

  abbrev pub for_answer : ℕ
  for_answer = timeouts.read + drain_allowance total

  abbrev pub limit : ℕ
  limit = begin + connect_timeout + timeouts.stall + for_bytes total + for_answer

  abbrev budget : ℕ → ℕ
  budget sent =
      begin
      + connect_timeout
      + timeouts.stall
      + for_bytes sent
      + (if ltb sent total then 0 else for_answer)

  record Within (w : Watchdog) : Type 0 where
    same_total : w.total ≡ total
    same_timeouts : w.timeouts ≡ timeouts
    sent_le : w.last_sent ≤ total
    deadline_le : w.deadline ≤ budget w.last_sent

  for_bytes-lt : (a b : ℕ) → a < b → for_bytes a + (timeouts.stall + gap) ≤ for_bytes b
  for_bytes-lt a b h =
      let more : suc a ≤ b = omega arith in
      let same : timeouts.stall + gap ≤ timeouts.stall + gap = omega arith in
      omega (arith, mul-le-mul more same)

  -- More bytes are worth the wait for them.
  budget-lt :
      (a b : ℕ)
      → a < b
      → b ≤ total
      → budget a + gap + (if ltb b total then timeouts.stall else for_answer) ≤ budget b
  budget-lt a b h le =
      let part : ltb a total ≡ true = ground arith in
      elim (Bool-cases (ltb b total)) [
        | inl more ↦ rw (part, more) (omega (arith, for_bytes-lt a b h))
        | inr whole ↦ rw (part, whole) (omega (arith, for_bytes-lt a b h))
      ]

  budget-le : (sent : ℕ) → sent ≤ total → budget sent ≤ limit
  budget-le sent h = elim (Bool-cases (ltb sent total)) [
    | inl part ↦ rw part (omega (arith, for_bytes-lt sent total (ground arith)))
    | inr whole ↦ let e : sent ≡ total = ground arith in rw (whole, e) (omega arith)
  ]

  note_progress-Within :
      (w : Watchdog) (last now sent : ℕ)
      → Within w
      → last < w.deadline
      → now ≤ last + gap
      → sent ≤ total
      → Within (note_progress w sent now)
  unfolding note_progress
  note_progress-Within w last now sent b early near le = elim (Bool-cases (ltb w.last_sent sent)) [
    | inl more ↦ rw more (record {
      same_total = b.same_total;
      same_timeouts = b.same_timeouts;
      sent_le = le;
      deadline_le =
          rw (b.same_total, b.same_timeouts)
            (omega (arith, b.deadline_le, budget-lt w.last_sent sent (ground arith) le));
    })
    | inr none_new ↦ rw none_new b
  ]

  guard_ends :
      (checks : List (ℕ × ℕ)) (w : Watchdog) (last : ℕ)
      → Within w
      → last < w.deadline
      → IsSpaced gap last checks
      → All (λ c. c.1 ≤ total) checks
      → any (λ c. leb limit c.0) checks ≡ true
      → (e : GrindrError) × (guard checks w ≡ err e)
  unfolding guard observe
  guard_ends [] w last b early spaced sizes late = absurd (ground arith)
  guard_ends ((now, sent) ∷ checks) w last b early (near, spaced) (size, sizes) late =
      let c = note_progress-Within w last now sent b early near size in
      let noted = note_progress w sent now in
      elim (Bool-cases (ltb now noted.deadline)) [
        | inl still ↦
            let go =
              guard_ends checks noted now c (ground arith) spaced sizes
                (ground (arith, c.deadline_le, budget-le noted.last_sent c.sent_le)) in
            (go.0, ground (arith, go.1))
        | inr due ↦
            (timeout (if ltb noted.last_sent noted.total then sending else headers), ground arith)
      ]

-- An upload whose bytes are seen up to its size, and whose checks are at most `gap` apart from its
-- start on, is ended with an error once a check is made at the limit or later: the connect and stall
-- timeouts, the stall timeout and a gap for each byte, the read timeout and the drain allowance.
pub guard_ends_by_limit :
    (checks : List (ℕ × ℕ)) (begin total gap : ℕ) (timeouts : Timeouts)
    → IsSpaced gap begin checks
    → All (λ c. c.1 ≤ total) checks
    → any (λ c. leb (limit begin total gap timeouts) c.0) checks ≡ true
    → (e : GrindrError) × (guard checks (start begin total timeouts) ≡ err e)
unfolding start
guard_ends_by_limit checks begin total gap timeouts spaced sizes late =
    guard_ends begin total gap timeouts checks (start begin total timeouts) begin
      (record {
        same_total = refl;
        same_timeouts = refl;
        sent_le = omega arith;
        deadline_le = omega arith;
      })
      (omega arith) spaced sizes late
