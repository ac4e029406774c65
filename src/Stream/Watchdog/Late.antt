-- ===== src/Stream/Watchdog/Late.antt =====
-- src/stream/watchdog.rs: when the watchdog ends an upload.
use grindr_rs.Prelude.{
  ℕ, ◌+◌, ◌≤◌, false, List, [], ◌∷◌, ◌++◌, ltb, if◌then◌else◌, ◌≡◌, refl, ap, arith, inl, inr,
  Bool-cases,
}
use grindr_rs.Error.{GrindrError, TimeoutPhase, sending, headers, timeout, err}
use grindr_rs.World.{Timeouts}
use package.grindr_rs.Stream.Watchdog.{
  Watchdog, start, note_progress, observe, guard, drain_allowance, connect_timeout,
}

-- The last progress of an upload that began at a time: the time at which a check saw it, and the
-- bytes that it saw.
pub data Progress : Type 0 where
  begun : ℕ → Progress
  seen : ℕ → ℕ → Progress

abbrev pub bytes_seen : Progress → ℕ
bytes_seen (begun t) = 0
bytes_seen (seen t sent) = sent

abbrev pub last_progress : Progress → List (ℕ × ℕ) → Progress
last_progress p [] = p
last_progress p ((now, sent) ∷ checks) =
    last_progress (if ltb (bytes_seen p) sent then seen now sent else p) checks

-- How long an upload may rest after it.
abbrev pub due : ℕ → Timeouts → Progress → ℕ
due total timeouts (begun t) = t + (connect_timeout + timeouts.stall)
due total timeouts (seen t sent) =
    t + (if ltb sent total then timeouts.stall else timeouts.read + drain_allowance total)

abbrev pub phase_at : ℕ → Progress → TimeoutPhase
phase_at total p = if ltb (bytes_seen p) total then sending else headers

-- The check at which an upload was ended: nothing was sent for as long as the upload may rest.
pub record Late (total : ℕ) (timeouts : Timeouts) (from : Progress) (checks : List (ℕ × ℕ))
    (e : GrindrError) : Type 0 where
  pub before : List (ℕ × ℕ)
  pub now : ℕ
  pub sent : ℕ
  pub after : List (ℕ × ℕ)
  pub split : checks ≡ before ++ ((now, sent) ∷ after)
  pub overdue : due total timeouts (last_progress from (before ++ ((now, sent) ∷ []))) ≤ now
  pub phase : e ≡ timeout (phase_at total (last_progress from (before ++ ((now, sent) ∷ []))))

-- What the state of the watchdog records.
record Follows (total : ℕ) (timeouts : Timeouts) (p : Progress) (w : Watchdog) : Type 0 where
  same_total : w.total ≡ total
  same_timeouts : w.timeouts ≡ timeouts
  same_sent : w.last_sent ≡ bytes_seen p
  same_deadline : w.deadline ≡ due total timeouts p

module _ {total : ℕ} {timeouts : Timeouts} where
  note_progress-Follows :
      (p : Progress) (w : Watchdog) (now sent : ℕ)
      → Follows total timeouts p w
      → Follows total timeouts
          (if ltb (bytes_seen p) sent then seen now sent else p)
          (note_progress w sent now)
  unfolding note_progress
  note_progress-Follows p w now sent f = elim (Bool-cases (ltb (bytes_seen p) sent)) [
    | inl more ↦
        rw (f.same_sent, more)
          (record {
            same_total = f.same_total;
            same_timeouts = f.same_timeouts;
            same_sent = refl;
            same_deadline = rw (f.same_total, f.same_timeouts) refl;
          })
    | inr none_new ↦
        let same : ltb w.last_sent sent ≡ false = ground (arith, f.same_sent) in
        rw (same, none_new) f
  ]

  guard-Follows :
      (checks : List (ℕ × ℕ)) (p : Progress) (w : Watchdog) (e : GrindrError)
      → Follows total timeouts p w
      → guard checks w ≡ err e
      → Late total timeouts p checks e
  unfolding guard observe
  guard-Follows [] p w e f h = absurd (ground arith)
  guard-Follows ((now, sent) ∷ checks) p w e f h =
      let g = note_progress-Follows p w now sent f in
      elim (Bool-cases (ltb now (note_progress w sent now).deadline)) [
        | inl early ↦
            let rest = guard-Follows checks _ (note_progress w sent now) e g (ground arith) in
            record {
              before = (now, sent) ∷ rest.before;
              now = rest.now;
              sent = rest.sent;
              after = rest.after;
              split = ap (λ cs. (now, sent) ∷ cs) rest.split;
              overdue = rest.overdue;
              phase = rest.phase;
            }
        | inr late ↦ record {
          before = [];
          now = now;
          sent = sent;
          after = checks;
          split = refl;
          overdue = ground (arith, g.same_deadline);
          phase = ground (arith, g.same_sent, g.same_total);
        }
      ]

-- If the watchdog ends an upload, then at a check nothing more had been sent for as long as an upload
-- may rest: the connect and stall timeouts from the start, the stall timeout after a part of the
-- body, the read timeout and the drain allowance after the whole; the phase says which.
pub guard-Late :
    (checks : List (ℕ × ℕ)) (begin total : ℕ) (timeouts : Timeouts) (e : GrindrError)
    → guard checks (start begin total timeouts) ≡ err e
    → Late total timeouts (begun begin) checks e
unfolding start
guard-Late checks begin total timeouts e h =
    guard-Follows checks (begun begin) (start begin total timeouts) e
      (record {
        same_total = refl;
        same_timeouts = refl;
        same_sent = refl;
        same_deadline = omega arith;
      })
      h
