-- ===== src/Stream/Pipe/Turns.antt =====
-- src/stream/body.rs `Pump`: how far a turn takes the upload of a source that gives what it promised.
use mathlib.Core.Bool.{false≢true}
use grindr_rs.Prelude.{
  ℕ, ◌+◌, ◌*◌, ◌≤◌, ◌<◌, Bool, true, false, ◌||◌, Option, none, some, List, [], ◌∷◌, ◌++◌, Text,
  length, ltb, ◌==◌, ◌≡◌, refl, sym, ap, subst, ◌∙◌, ◌⊎◌, inl, inr, arith, Bool-cases,
  length-append,
}
use package.grindr_rs.Stream.Pump.{Read, got, interrupted, broken, finished}
use package.grindr_rs.Stream.Pump.Delivers.{content}
use package.grindr_rs.Stream.Pipe.{
  opens, refuses, Stage, opening, reading, delivering, returned, Pipe, ends, goes_on, hand_over,
  takes_in, deliver, pump_at, queued_chunks,
}
use package.grindr_rs.Stream.Pipe.Flow.{through, Stands}

-- No read fails before the end of the source.
abbrev pub is_sound : List Read → Bool
is_sound [] = true
is_sound (got [] ∷ reads) = true
is_sound (got (b ∷ bs) ∷ reads) = is_sound reads
is_sound (interrupted ∷ reads) = is_sound reads
is_sound (broken error ∷ reads) = false

-- The pump has sound reads ahead, or it has returned since it was finished.
abbrev pub IsSound : Stage → Type 0
IsSound (opening (opens reads)) = is_sound reads ≡ true
IsSound (opening (refuses error)) = false ≡ true
IsSound (reading reads held) = is_sound reads ≡ true
IsSound (delivering held bytes reads) = is_sound (got bytes ∷ reads) ≡ true
IsSound (returned finished) = Unit
IsSound (returned r) = false ≡ true

abbrev weight : Option Text → ℕ
weight none = 0
weight (some held) = 2

-- How many turns and polls are still to come, at most.
abbrev pub stage_rank : Stage → ℕ
stage_rank (opening (opens reads)) = 4 * length reads + 2
stage_rank (opening (refuses error)) = 1
stage_rank (reading reads held) = 4 * length reads + 1 + weight held
stage_rank (delivering held [] reads) = 2
stage_rank (delivering held (b ∷ bs) reads) = 4 * length reads + 5
stage_rank (returned r) = 0

abbrev pub rank : Pipe → ℕ
rank p = stage_rank p.stage + length p.queue

abbrev next_rank : Text → List Read → ℕ
next_rank [] reads = 0
next_rank (b ∷ bs) reads = 4 * length reads + 3

-- The stage that the pump comes to is sound, and of at most that rank; its channel and body are as before.
abbrev Comes : Pipe → ℕ → Pipe → Type 0
Comes p bound q = IsSound q.stage × (stage_rank q.stage ≤ bound) × (length q.queue ≡ length p.queue)

length-content :
    (bytes : Text) (reads : List Read) → length bytes ≤ length (content (got bytes ∷ reads))
length-content [] reads = omega arith
length-content (b ∷ bs) reads = omega (arith, length-append bs (content reads))

goes_on-Comes :
    (bytes : Text) (reads : List Read) (p : Pipe)
    → is_sound (got bytes ∷ reads) ≡ true
    → length bytes + p.unread ≡ length (content (got bytes ∷ reads))
    → Comes p (next_rank bytes reads) (goes_on bytes reads p)
unfolding goes_on ends
goes_on-Comes [] reads p sound left =
    let all : (p.unread == 0) ≡ true = ground arith in rw all (tt, omega arith, refl)
goes_on-Comes (b ∷ bs) reads p sound left = (sound, omega arith, refl)

hand_over-Comes :
    (bytes : Text) (reads : List Read) (held : Option Text) (p : Pipe)
    → is_sound (got bytes ∷ reads) ≡ true
    → length bytes + p.unread ≡ length (content (got bytes ∷ reads))
    → Comes p (next_rank bytes reads + weight held) (hand_over bytes reads held p)
unfolding hand_over
hand_over-Comes bytes reads none p sound left =
    let (sound_after, few, same) = goes_on-Comes bytes reads p sound left in
    (sound_after, omega (arith, few), same)
hand_over-Comes [] reads (some held) p sound left = (sound, omega arith, refl)
hand_over-Comes (b ∷ bs) reads (some held) p sound left = (sound, omega arith, refl)

takes_in-Comes :
    (bytes : Text) (reads : List Read) (held : Option Text) (p : Pipe)
    → is_sound (got bytes ∷ reads) ≡ true
    → p.unread ≡ length (content (got bytes ∷ reads))
    → Comes p (next_rank bytes reads + weight held) (takes_in bytes reads held p)
unfolding takes_in
takes_in-Comes bytes reads held p sound left =
    let few = length-content bytes reads in
    let fits : ltb p.unread (length bytes) ≡ false = ground arith in
    rw fits (hand_over-Comes bytes reads held _ sound (omega (arith, few)))

-- A turn of a pump that can go on.
abbrev pub Turns : Pipe → Pipe → Type 0
Turns p q =
    IsSound q.stage
    × (rank q ≤ rank p)
    × ((rank q < rank p) ⊎ (2 ≤ length p.queue) ⊎ (stage_rank p.stage ≡ 0))

turned : (p q : Pipe) (bound : ℕ) → Comes p bound q → bound < stage_rank p.stage → Turns p q
turned p q bound (sound, few, same) less = (sound, omega arith, inl (omega arith))

delivering_rank :
    (held bytes : Text) (reads : List Read)
    → next_rank bytes reads + 2 ≤ stage_rank (delivering held bytes reads)
delivering_rank held [] reads = omega arith
delivering_rank held (b ∷ bs) reads = omega arith

next_rank-le : (bytes : Text) (reads : List Read) → next_rank bytes reads ≤ 4 * length reads + 3
next_rank-le [] reads = omega arith
next_rank-le (b ∷ bs) reads = omega arith

module _ (size : ℕ) (whole : Text) where
  -- What is left of a source that keeps its promise is what is unread.
  abbrev pub Left : Pipe → Text → Type 0
  Left p rest = length (through p) + length rest ≡ size

  deliver-Turns :
      (held bytes : Text) (reads : List Read) (p : Pipe) (rest : Text)
      → p.stage ≡ delivering held bytes reads
      → (p.happened || p.dropped) ≡ false
      → is_sound (got bytes ∷ reads) ≡ true
      → Left p rest
      → Stands size (delivering held bytes reads) p.unread (length (through p)) rest
      → Turns p (deliver held bytes reads p)
  unfolding deliver
  deliver-Turns held bytes reads p rest here on sound left (same, some_held, all) =
      elim (Bool-cases (ltb (length p.queue) queued_chunks)) [
        | inr full ↦
            rw (on, full) (subst IsSound (sym here) sound, omega arith, inr (inl (ground arith)))
        | inl room ↦
            let long = ap length same ∙ length-append held (content (got bytes ∷ reads)) in
            let one = length-append p.queue (held ∷ []) in
            let (sound_after, few, kept) =
              goes_on-Comes bytes reads (record p { queue = p.queue ++ (held ∷ []) }) sound
                (omega (arith, left, long, all)) in
            let before = ap stage_rank here in
            let more = delivering_rank held bytes reads in
            rw (on, room)
              (
                sound_after,
                omega (arith, few, kept, one, before, more),
                inl (omega (arith, few, kept, one, before, more)),
              )
      ]

  reads-Turns :
      (bytes : Text) (reads : List Read) (held : Option Text) (p : Pipe) (rest : Text)
      → is_sound (got bytes ∷ reads) ≡ true
      → next_rank bytes reads + weight held < stage_rank p.stage
      → Left p rest
      → Stands size (reading (got bytes ∷ reads) held) p.unread (length (through p)) rest
      → Turns p (takes_in bytes reads held p)
  reads-Turns bytes reads none p rest sound less left (same, zero, all) =
      turned p (takes_in bytes reads none p) _
        (takes_in-Comes bytes reads none p sound (omega (arith, left, ap length same))) less
  reads-Turns bytes reads (some held) p rest sound less left (same, some_held, all) =
      let long = ap length same ∙ length-append held (content (got bytes ∷ reads)) in
      turned p (takes_in bytes reads (some held) p) _
        (takes_in-Comes bytes reads (some held) p sound (omega (arith, left, long, all))) less

  pub pump_at-Turns :
      (stage : Stage) (p : Pipe) (rest : Text)
      → p.stage ≡ stage
      → (p.happened || p.dropped) ≡ false
      → IsSound stage
      → Left p rest
      → Stands size stage p.unread (length (through p)) rest
      → Turns p (pump_at stage p)
  unfolding pump_at
  pump_at-Turns (opening (opens reads)) p rest here on sound left s =
      let before = ap stage_rank here in (sound, omega arith, inl (omega arith))
  pump_at-Turns (opening (refuses error)) p rest here on sound left s = absurd (false≢true sound)
  pump_at-Turns (reading [] none) p rest here on sound left s =
      let before = ap stage_rank here in reads-Turns [] [] none p rest refl (omega arith) left s
  pump_at-Turns (reading [] (some held)) p rest here on sound left s =
      let before = ap stage_rank here in
      reads-Turns [] [] (some held) p rest refl (omega arith) left s
  pump_at-Turns (reading (interrupted ∷ reads) held) p rest here on sound left s =
      let before = ap stage_rank here in (sound, omega arith, inl (omega arith))
  pump_at-Turns (reading (broken error ∷ reads) held) p rest here on sound left s =
      absurd (false≢true sound)
  pump_at-Turns (reading (got bytes ∷ reads) held) p rest here on sound left s =
      let before = ap stage_rank here in
      let few = next_rank-le bytes reads in
      reads-Turns bytes reads held p rest sound (omega (arith, before, few)) left s
  pump_at-Turns (delivering held bytes reads) p rest here on sound left s =
      deliver-Turns held bytes reads p rest here on sound left s
  pump_at-Turns (returned r) p rest here on sound left s =
      (subst IsSound (sym here) sound, omega arith, inr (inr (ap stage_rank here)))
