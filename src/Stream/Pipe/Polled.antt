-- ===== src/Stream/Pipe/Polled.antt =====
-- src/stream/body.rs `StreamedBody`: a poll loses no byte of a streamed upload.
use mathlib.Core.List.{append_assoc}
use grindr_rs.Prelude.{
  ℕ, ◌+◌, ◌≤◌, ◌<◌, none, some, List, [], ◌∷◌, ◌++◌, append_nil, Text, length, ◌==◌, ◌≡◌, refl, sym,
  ap, subst, ◌∙◌, inl, inr, arith, Bool-cases, length-append,
}
use package.grindr_rs.Stream.Pump.{finished, abandoned, failed}
use package.grindr_rs.Stream.Body.{StreamedBody, Frame, pending, take_frame, u64_mod, poll_frame}
use package.grindr_rs.Stream.Pipe.{
  Stage, opening, reading, delivering, returned, Pipe, bytes_in, queue_after, received, poll,
}
use package.grindr_rs.Stream.Pipe.Flow.{joined, through, Stands, Carries, Flows}

module _ (size : ℕ) (whole : Text) where
  -- A poll moves the oldest chunk to the frames, or nothing.
  abbrev Moved : StreamedBody → Text → List Text → Frame × StreamedBody → Type 0
  Moved body framed queue (frame, after) =
      ((framed ++ bytes_in frame) ++ joined (queue_after frame queue) ≡ framed ++ joined queue)
      × (after.unsent + length (framed ++ bytes_in frame) ≡ size)
      × (after.sent ≡ length (framed ++ bytes_in frame))

  nothing-Moved :
      (body : StreamedBody) (framed : Text) (queue : List Text)
      → body.unsent + length framed ≡ size
      → body.sent ≡ length framed
      → Moved body framed queue (pending, body)
  nothing-Moved body framed queue unsent sent = rw (append_nil framed) (refl, unsent, sent)

  take_frame-Moved :
      (body : StreamedBody) (framed : Text) (stage : Stage) (queue : List Text)
      → size < u64_mod
      → body.unsent + length framed ≡ size
      → body.sent ≡ length framed
      → length (framed ++ joined queue) ≤ size
      → Moved body framed queue (take_frame body (received stage queue))
  take_frame-Moved body framed stage (c ∷ cs) small unsent sent fits =
      let long = length-append framed (c ++ joined cs) in
      let one = length-append framed c in
      let two = length-append c (joined cs) in
      (
        append_assoc framed c (joined cs),
        ground (arith, long, one, two),
        ground (arith, long, one, two),
      )
  take_frame-Moved body framed (returned r) [] small unsent sent fits =
      nothing-Moved body framed [] unsent sent
  take_frame-Moved body framed stage [] small unsent sent fits =
      nothing-Moved body framed [] unsent sent

  poll_frame-Moved :
      (p : Pipe) (rest : Text)
      → size < u64_mod
      → length (through p) ≤ size
      → Carries size whole p rest
      → Moved p.body p.framed p.queue (poll_frame p.body p.happened (received p.stage p.queue))
  unfolding poll_frame
  poll_frame-Moved p rest small fits (order, unsent, sent) =
      elim (Bool-cases (p.body.unsent == 0)) [
        | inl z ↦ rw z (nothing-Moved p.body p.framed p.queue unsent sent)
        | inr more ↦ elim (Bool-cases p.happened) [
          | inl gone ↦ rw (more, gone) (nothing-Moved p.body p.framed p.queue unsent sent)
          | inr on ↦
              rw (more, on)
                (take_frame-Moved p.body p.framed p.stage p.queue small unsent sent fits)
        ]
      ]

  Stands-fits :
      (stage : Stage) (unread n : ℕ) (rest : Text) → Stands size stage unread n rest → n ≤ size
  Stands-fits (opening source) unread n rest s = omega arith
  Stands-fits (reading reads none) unread n rest s = omega arith
  Stands-fits (reading reads (some held)) unread n rest s = omega arith
  Stands-fits (delivering held bytes reads) unread n rest s = omega arith
  Stands-fits (returned finished) unread n rest s = omega arith
  Stands-fits (returned abandoned) unread n rest s = omega arith
  Stands-fits (returned (failed e)) unread n rest s = omega arith

  pub poll-Flows : (p : Pipe) → size < u64_mod → Flows size whole p → Flows size whole (poll p)
  unfolding poll
  poll-Flows p small (rest, c, s) = elim (Bool-cases p.dropped) [
    | inl gone ↦ rw gone (rest, c, s)
    | inr has ↦
        let (same, unsent, sent) =
          poll_frame-Moved p rest small (Stands-fits p.stage p.unread _ rest s) c in
        rw has (
          rest,
          (ap (λ t. t ++ rest) same ∙ c.0, unsent, sent),
          subst (λ t. Stands size p.stage p.unread (length t) rest) (sym same) s,
        )
  ]
