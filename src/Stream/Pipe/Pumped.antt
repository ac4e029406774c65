-- ===== src/Stream/Pipe/Pumped.antt =====
-- src/stream/body.rs `Pump`: a turn of the pump loses no byte of a streamed upload.
use mathlib.Core.List.{append_assoc}
use grindr_rs.Prelude.{
  ℕ, ◌+◌, ◌||◌, Option, none, some, List, [], ◌∷◌, ◌++◌, Text, length, ltb, ◌==◌, ◌≡◌, refl, sym,
  ap, subst, ◌∙◌, inl, inr, arith, Bool-cases, length-append,
}
use package.grindr_rs.Stream.Pump.{Read, got, interrupted, broken}
use package.grindr_rs.Stream.Pump.Delivers.{content}
use package.grindr_rs.Stream.Pipe.{
  opens, refuses, Stage, opening, reading, delivering, returned, Pipe, ends, goes_on, hand_over,
  takes_in, deliver, pump_at, queued_chunks,
}
use package.grindr_rs.Stream.Pipe.Flow.{joined, joined-snoc, through, Stands, Carries, Flows}

module _ (size : ℕ) (whole : Text) where
  goes_on-Flows :
      (bytes : Text) (reads : List Read) (p : Pipe)
      → Carries size whole p (content (got bytes ∷ reads))
      → length (through p) + length bytes + p.unread ≡ size
      → Flows size whole (goes_on bytes reads p)
  unfolding goes_on ends
  goes_on-Flows [] reads p c counted = elim (Bool-cases (p.unread == 0)) [
    | inl z ↦ rw z ([], c, (refl, ground arith))
    | inr n ↦ rw n ([], c, inl (ground arith))
  ]
  goes_on-Flows (b ∷ bs) reads p c counted =
      (content (got (b ∷ bs) ∷ reads), c, (refl, omega arith, counted))

  takes_in-Flows :
      (bytes : Text) (reads : List Read) (held : Option Text) (p : Pipe) (rest : Text)
      → Carries size whole p rest
      → Stands size (reading (got bytes ∷ reads) held) p.unread (length (through p)) rest
      → Flows size whole (takes_in bytes reads held p)
  unfolding takes_in ends hand_over
  takes_in-Flows bytes reads none p rest c (same, zero, all) =
      elim (Bool-cases (ltb p.unread (length bytes))) [
        | inl long ↦ rw long (rest, c, ground arith)
        | inr fits ↦
            rw fits (goes_on-Flows bytes reads _ (rw (sym same) c.0, c.1, c.2) (ground arith))
      ]
  takes_in-Flows bytes reads (some held) p rest c (same, some_held, all) =
      elim (Bool-cases (ltb p.unread (length bytes))) [
        | inl long ↦ rw long (rest, c, inl (omega arith))
        | inr fits ↦ rw fits (rest, c, (same, some_held, ground arith))
      ]

  through-snoc : (p : Pipe) (c : Text) → p.framed ++ joined (p.queue ++ (c ∷ [])) ≡ through p ++ c
  through-snoc p c =
      ap (λ t. p.framed ++ t) (joined-snoc p.queue c)
      ∙ sym (append_assoc p.framed (joined p.queue) c)

  deliver-Flows :
      (held bytes : Text) (reads : List Read) (p : Pipe) (rest : Text)
      → p.stage ≡ delivering held bytes reads
      → Carries size whole p rest
      → Stands size (delivering held bytes reads) p.unread (length (through p)) rest
      → Flows size whole (deliver held bytes reads p)
  unfolding deliver ends
  deliver-Flows held bytes reads p rest here c (same, some_held, all) =
      elim (Bool-cases (p.happened || p.dropped)) [
        | inl gone ↦ rw gone (rest, c, inl (omega arith))
        | inr lets ↦ elim (Bool-cases (ltb (length p.queue) queued_chunks)) [
          | inr full ↦
              let still : Stands size p.stage p.unread (length (through p)) rest =
                subst (λ stage. Stands size stage p.unread (length (through p)) rest) (sym here)
                  (same, some_held, all) in
              rw (lets, full) (rest, c, still)
          | inl room ↦
              let after : Text = content (got bytes ∷ reads) in
              let order : (through p ++ held) ++ after ≡ whole =
                append_assoc (through p) held after ∙ rw (sym same) c.0 in
              rw (lets, room)
                (goes_on-Flows bytes reads _
                  (ap (λ t. t ++ after) (through-snoc p held) ∙ order, c.1, c.2)
                  (omega (arith, ap length (through-snoc p held), length-append (through p) held)))
        ]
      ]

  pub pump_at-Flows :
      (stage : Stage) (p : Pipe) (rest : Text)
      → p.stage ≡ stage
      → Carries size whole p rest
      → Stands size stage p.unread (length (through p)) rest
      → Flows size whole (pump_at stage p)
  unfolding pump_at ends
  pump_at-Flows (opening (opens reads)) p rest here c s = (rest, c, s)
  pump_at-Flows (opening (refuses error)) p rest here c s = (rest, c, ground arith)
  pump_at-Flows (reading [] none) p rest here c s = takes_in-Flows [] [] none p rest c s
  pump_at-Flows (reading [] (some held)) p rest here c s =
      takes_in-Flows [] [] (some held) p rest c s
  pump_at-Flows (reading (interrupted ∷ reads) none) p rest here c s = (rest, c, s)
  pump_at-Flows (reading (interrupted ∷ reads) (some held)) p rest here c s = (rest, c, s)
  pump_at-Flows (reading (broken error ∷ reads) none) p rest here c s = (rest, c, ground arith)
  pump_at-Flows (reading (broken error ∷ reads) (some held)) p rest here c s =
      (rest, c, inl (omega arith))
  pump_at-Flows (reading (got bytes ∷ reads) held) p rest here c s =
      takes_in-Flows bytes reads held p rest c s
  pump_at-Flows (delivering held bytes reads) p rest here c s =
      deliver-Flows held bytes reads p rest here c s
  pump_at-Flows (returned r) p rest here c s =
      (rest, c, subst (λ stage. Stands size stage p.unread (length (through p)) rest) (sym here) s)
