-- ===== src/Stream/Pipe/Completes.antt =====
-- src/stream/body.rs: a streamed upload whose source gives what it promised comes to its end.
use mathlib.Core.Bool.{false≢true}
use grindr_rs.Prelude.{
  ℕ, suc, ◌+◌, ◌*◌, ◌≤◌, ◌<◌, Bool, true, false, ◌||◌, List, [], ◌∷◌, Text, length, ◌==◌, ◌≡◌, refl,
  sym, ap, subst, ◌∙◌, ◌⊎◌, inl, inr, all, arith, Bool-cases, length-append,
}
use package.grindr_rs.Stream.Pump.{Read, finished, abandoned, failed}
use package.grindr_rs.Stream.Pump.Delivers.{content}
use package.grindr_rs.Stream.Body.{u64_mod, is_end_stream}
use package.grindr_rs.Stream.Pipe.{
  opens, refuses, Stage, opening, reading, delivering, returned, Pipe, open_pipe, pump, poll, Event,
  pumps, polls, abandons, drops, happen, happen_all,
}
use package.grindr_rs.Stream.Pipe.Flow.{joined, through, Stands, Carries, Flows}
use package.grindr_rs.Stream.Pipe.Polled.{poll-Flows}
use package.grindr_rs.Stream.Pipe.Whole.{Delivered, happen-Flows, happen_all-Delivered, nothing_of}
use package.grindr_rs.Stream.Pipe.Turns.{
  is_sound, IsSound, stage_rank, rank, Turns, Left, pump_at-Turns,
}
use package.grindr_rs.Stream.Pipe.Kept.{Kept, pump_at-Kept, poll-takes, poll-keeps, poll-ended}

-- Only turns of the pump and polls.
abbrev pub is_work : Event → Bool
is_work pumps = true
is_work polls = true
is_work abandons = false
is_work drops = false

-- How often a turn of the pump is followed by a poll, whatever comes between them; the Boolean says whether
-- the turn was made.
abbrev pub laps : Bool → List Event → ℕ
laps turned [] = 0
laps turned (pumps ∷ es) = laps true es
laps true (polls ∷ es) = suc (laps false es)
laps false (polls ∷ es) = laps false es
laps turned (abandons ∷ es) = laps turned es
laps turned (drops ∷ es) = laps turned es

-- What an upload has to have done by now, if so many laps are to come.
abbrev InTime : Bool → ℕ → Pipe → Type 0
InTime false to_come p = rank p ≤ to_come
InTime true to_come p =
    (rank p < to_come) ⊎ (rank p ≡ 0) ⊎ ((rank p ≤ to_come) × (0 < length p.queue))

abbrev IsOver : Pipe → Type 0
IsOver p = (p.body.unsent == 0) ≡ true

module _ (size : ℕ) (whole : Text) where
  abbrev Runs : Pipe → Type 0
  Runs p =
      Flows size whole p
      × IsSound p.stage
      × ((p.happened || p.dropped) ≡ false)
      × (length whole ≡ size)

  source-Left :
      (p : Pipe)
      → Runs p
      → (rest : Text) × Carries size whole p rest
        × Stands size p.stage p.unread (length (through p)) rest
        × Left size whole p rest
  source-Left p ((rest, c, s), sound, on, long) =
      (rest, c, s, sym (length-append (through p) rest) ∙ (ap length c.0 ∙ long))

  pump-Runs :
      (p : Pipe) → size < u64_mod → Runs p → Runs (pump p) × Turns p (pump p) × Kept p (pump p)
  unfolding pump happen
  pump-Runs p small r =
      let (rest, c, s, left) = source-Left p r in
      let turns = pump_at-Turns size whole p.stage p rest refl r.2 r.1 left s in
      let kept = pump_at-Kept p.stage p in
      let on : ((pump p).happened || (pump p).dropped) ≡ false = rw (kept.1, kept.2) r.2 in
      ((happen-Flows size whole pumps p small r.0, turns.0, on, r.3), turns, kept)

  poll-Runs : (p : Pipe) → size < u64_mod → Runs p → Runs (poll p)
  poll-Runs p small (f, sound, on, long) =
      let (stage, happened, dropped) = poll-keeps p in
      (
        poll-Flows size whole p small f,
        subst IsSound (sym stage) sound,
        rw (happened, dropped) on,
        long,
      )

  due_after_turn :
      (turned : Bool) (to_come : ℕ) (p q : Pipe)
      → Turns p q
      → length p.queue ≤ length q.queue
      → InTime turned to_come p
      → InTime true to_come q
  due_after_turn true to_come p q turns more due = ground arith
  due_after_turn false to_come p q turns more due = ground arith

  due_after_poll :
      (turned : Bool) (es : List Event) (p : Pipe)
      → (p.happened || p.dropped) ≡ false
      → (p.body.unsent == 0) ≡ false
      → InTime turned (laps turned (polls ∷ es)) p
      → InTime false (laps false es) (poll p)
  due_after_poll true es p on more due =
      let same = ap stage_rank (poll-keeps p).0 in
      let fewer = poll-takes p on more in ground (arith, same, fewer)
  due_after_poll false es p on more due =
      let same = ap stage_rank (poll-keeps p).0 in
      let fewer = poll-takes p on more in omega (arith, same, fewer)

  finished_size :
      (stage : Stage) (unread n : ℕ) (rest : Text)
      → IsSound stage
      → stage_rank stage ≡ 0
      → Stands size stage unread n rest
      → n ≡ size
  finished_size (opening (opens reads)) unread n rest sound none_left s = absurd (omega arith)
  finished_size (opening (refuses error)) unread n rest sound none_left s = absurd (omega arith)
  finished_size (reading reads held) unread n rest sound none_left s = absurd (omega arith)
  finished_size (delivering held [] reads) unread n rest sound none_left s = absurd (omega arith)
  finished_size (delivering held (b ∷ bs) reads) unread n rest sound none_left s =
      absurd (omega arith)
  finished_size (returned finished) unread n rest sound none_left s = s.1
  finished_size (returned abandoned) unread n rest sound none_left s = absurd (false≢true sound)
  finished_size (returned (failed e)) unread n rest sound none_left s = absurd (false≢true sound)

  joined_nothing : (queue : List Text) → length queue ≡ 0 → joined queue ≡ []
  joined_nothing [] e = refl
  joined_nothing (c ∷ cs) e = absurd (omega arith)

  ended_at_last : (p : Pipe) → Runs p → rank p ≡ 0 → IsOver p
  ended_at_last p ((rest, c, s), sound, on, long) none_left =
      let all = finished_size p.stage p.unread _ rest sound (omega arith) s in
      let empty = ap length (joined_nothing p.queue (omega arith)) in
      let parts = length-append p.framed (joined p.queue) in ground (arith, all, empty, parts, c.1)

  stays_ended :
      (es : List Event) (p : Pipe) → all is_work es ≡ true → IsOver p → IsOver (happen_all es p)
  unfolding happen_all happen pump
  stays_ended [] p work at_end = at_end
  stays_ended (pumps ∷ es) p work at_end =
      stays_ended es (pump p) work (ap (λ b. b.unsent == 0) (pump_at-Kept p.stage p).0 ∙ at_end)
  stays_ended (polls ∷ es) p work at_end = stays_ended es (poll p) work (poll-ended p at_end)
  stays_ended (abandons ∷ es) p work at_end = absurd (false≢true work)
  stays_ended (drops ∷ es) p work at_end = absurd (false≢true work)

  ends_by_due :
      (turned : Bool) (es : List Event) (p : Pipe)
      → size < u64_mod
      → all is_work es ≡ true
      → Runs p
      → InTime turned (laps turned es) p
      → IsOver (happen_all es p)
  unfolding happen_all happen
  ends_by_due true [] p small work r due = ended_at_last p r (ground arith)
  ends_by_due false [] p small work r due = ended_at_last p r (omega arith)
  ends_by_due turned (pumps ∷ es) p small work r due =
      let (runs, turns, kept) = pump-Runs p small r in
      ends_by_due true es (pump p) small work runs
        (due_after_turn turned (laps true es) p (pump p) turns kept.3 due)
  ends_by_due turned (polls ∷ es) p small work r due = elim (Bool-cases (p.body.unsent == 0)) [
    | inl at_end ↦ stays_ended es (poll p) work (poll-ended p at_end)
    | inr more ↦
        ends_by_due false es (poll p) small work (poll-Runs p small r)
          (due_after_poll turned es p r.2 more due)
  ]
  ends_by_due turned (abandons ∷ es) p small work r due = absurd (false≢true work)
  ends_by_due turned (drops ∷ es) p small work r due = absurd (false≢true work)

whole_at_end :
    (size : ℕ) (whole : Text) (p : Pipe)
    → length whole ≡ size
    → IsOver p
    → Delivered size whole p
    → (is_end_stream p.body ≡ true) × (p.framed ≡ whole)
unfolding is_end_stream
whole_at_end size whole p long at_end (inl (here, framed, same)) = (at_end, framed)
whole_at_end size whole p long at_end (inr (inl (not_here, rest, order, few))) =
    absurd (false≢true (sym not_here ∙ at_end))
whole_at_end size whole p long at_end (inr (inr (empty, here, nothing))) =
    (at_end, nothing ∙ sym (nothing_of whole (long ∙ empty)))

-- An upload comes to the end of its body, and the library has all of the source, if the source opens, no read of it
-- fails, and it gives as many bytes as it promised, a u64: once a turn of the pump was followed by a poll
-- four times per read and twice more, in any order of turns and polls, nothing being dropped.
pub upload_completes :
    (reads : List Read) (es : List Event)
    → length (content reads) < u64_mod
    → is_sound reads ≡ true
    → all is_work es ≡ true
    → 4 * length reads + 2 ≤ laps false es
    → let p = happen_all es (open_pipe (opens reads) (length (content reads))) in
      (is_end_stream p.body ≡ true) × (p.framed ≡ content reads)
unfolding open_pipe is_end_stream
upload_completes reads es small sound work often =
    let size = length (content reads) in
    let p = open_pipe (opens reads) size in
    whole_at_end size (content reads) (happen_all es p) refl
      (ends_by_due size (content reads) false es p small work
        ((content reads, (refl, omega arith, refl), (refl, refl, refl)), sound, refl, refl)
        (omega arith))
      (happen_all-Delivered (opens reads) size es small)
