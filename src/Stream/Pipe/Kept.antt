-- ===== src/Stream/Pipe/Kept.antt =====
-- src/stream/body.rs: what a turn of the pump and a poll leave as it is.
use grindr_rs.Prelude.{
  ◌-◌, ◌≤◌, true, false, ◌||◌, Option, none, some, List, [], ◌∷◌, ◌++◌, Text, length, ltb, ◌==◌,
  ◌≡◌, refl, inl, inr, arith, Bool-cases, length-append,
}
use package.grindr_rs.Stream.Pump.{Read, got, interrupted, broken}
use package.grindr_rs.Stream.Body.{StreamedBody, take_frame, poll_frame}
use package.grindr_rs.Stream.Pipe.{
  opens, refuses, Stage, opening, reading, delivering, returned, Pipe, queue_after, received, ends,
  goes_on, hand_over, takes_in, deliver, pump_at, poll, queued_chunks,
}

-- What a turn of the pump leaves as it is.
abbrev pub Kept : Pipe → Pipe → Type 0
Kept p q =
    (q.body ≡ p.body)
    × (q.happened ≡ p.happened)
    × (q.dropped ≡ p.dropped)
    × (length p.queue ≤ length q.queue)

goes_on-Kept : (bytes : Text) (reads : List Read) (p : Pipe) → Kept p (goes_on bytes reads p)
unfolding goes_on ends
goes_on-Kept [] reads p = (refl, refl, refl, omega arith)
goes_on-Kept (b ∷ bs) reads p = (refl, refl, refl, omega arith)

takes_in-Kept :
    (bytes : Text) (reads : List Read) (held : Option Text) (p : Pipe)
    → Kept p (takes_in bytes reads held p)
unfolding takes_in hand_over ends
takes_in-Kept bytes reads none p = elim (Bool-cases (ltb p.unread (length bytes))) [
  | inl long ↦ rw long (refl, refl, refl, omega arith)
  | inr fits ↦ rw fits (goes_on-Kept bytes reads _)
]
takes_in-Kept bytes reads (some held) p = elim (Bool-cases (ltb p.unread (length bytes))) [
  | inl long ↦ rw long (refl, refl, refl, omega arith)
  | inr fits ↦ rw fits (refl, refl, refl, omega arith)
]

deliver-Kept :
    (held bytes : Text) (reads : List Read) (p : Pipe) → Kept p (deliver held bytes reads p)
unfolding deliver ends
deliver-Kept held bytes reads p = elim (Bool-cases (p.happened || p.dropped)) [
  | inl gone ↦ rw gone (refl, refl, refl, omega arith)
  | inr lets ↦ elim (Bool-cases (ltb (length p.queue) queued_chunks)) [
    | inr full ↦ rw (lets, full) (refl, refl, refl, omega arith)
    | inl room ↦
        let (body, happened, dropped, queue) =
          goes_on-Kept bytes reads (record p { queue = p.queue ++ (held ∷ []) }) in
        rw (lets, room)
          (body, happened, dropped, omega (arith, queue, length-append p.queue (held ∷ [])))
  ]
]

pub pump_at-Kept : (stage : Stage) (p : Pipe) → Kept p (pump_at stage p)
unfolding pump_at ends
pump_at-Kept (opening (opens reads)) p = (refl, refl, refl, omega arith)
pump_at-Kept (opening (refuses error)) p = (refl, refl, refl, omega arith)
pump_at-Kept (reading [] held) p = takes_in-Kept [] [] held p
pump_at-Kept (reading (interrupted ∷ reads) held) p = (refl, refl, refl, omega arith)
pump_at-Kept (reading (broken error ∷ reads) held) p = (refl, refl, refl, omega arith)
pump_at-Kept (reading (got bytes ∷ reads) held) p = takes_in-Kept bytes reads held p
pump_at-Kept (delivering held bytes reads) p = deliver-Kept held bytes reads p
pump_at-Kept (returned r) p = (refl, refl, refl, omega arith)

-- A poll takes one chunk out of the channel, if there is one and the body is not at its end.
take_frame-queue :
    (body : StreamedBody) (stage : Stage) (queue : List Text)
    → length (queue_after (take_frame body (received stage queue)).0 queue) ≡ length queue - 1
take_frame-queue body stage (c ∷ cs) = omega arith
take_frame-queue body (returned r) [] = omega arith
take_frame-queue body stage [] = omega arith

pub poll-takes :
    (p : Pipe)
    → (p.happened || p.dropped) ≡ false
    → (p.body.unsent == 0) ≡ false
    → length (poll p).queue ≡ length p.queue - 1
unfolding poll poll_frame
poll-takes p on more =
    let not_happened : p.happened ≡ false = ground arith in
    let not_dropped : p.dropped ≡ false = ground arith in
    rw (not_dropped, more, not_happened) (take_frame-queue p.body p.stage p.queue)

pub poll-keeps :
    (p : Pipe)
    → ((poll p).stage ≡ p.stage) × ((poll p).happened ≡ p.happened) × ((poll p).dropped ≡ p.dropped)
unfolding poll
poll-keeps p = elim (Bool-cases p.dropped) [
  | inl gone ↦ rw gone (refl, refl, refl)
  | inr has ↦ rw has (refl, refl, refl)
]

pub poll-ended : (p : Pipe) → (p.body.unsent == 0) ≡ true → ((poll p).body.unsent == 0) ≡ true
unfolding poll poll_frame
poll-ended p at_end = ground arith
