-- ===== src/Tests/Uploads.antt =====
-- Runs of a streamed upload of three bytes.
use grindr_rs.Prelude.{zero, suc, suc, ℕ, true, false, none, some, List, [], ◌∷◌, ◌≡◌, refl, arith}
use grindr_rs.Stream.Pump.{Read, got, interrupted, finished, abandoned, failed, source_ran_long}
use grindr_rs.Stream.Body.{is_end_stream}
use grindr_rs.Stream.Pipe.{
  opens, returned, Event, pumps, polls, abandons, drops, open_pipe, happen_all,
}
use grindr_rs.Stream.Pipe.Whole.{Delivered, happen_all-Delivered}
use grindr_rs.Stream.Pipe.Completes.{upload_completes}

abbrev reads : List Read
reads = got (1 ∷ 2 ∷ []) ∷ interrupted ∷ got (3 ∷ []) ∷ []

-- The pump runs ahead of the polls, and the upload is dropped before the last one.
abbrev dropped_late : List Event
dropped_late =
    pumps ∷ pumps ∷ pumps ∷ pumps ∷ polls ∷ pumps ∷ pumps ∷ polls ∷ pumps ∷ abandons ∷ polls ∷ []

happen_all-Delivered_example :
    Delivered 3 (1 ∷ 2 ∷ 3 ∷ []) (happen_all dropped_late (open_pipe (opens reads) 3))
happen_all-Delivered_example = happen_all-Delivered (opens reads) 3 dropped_late (omega arith)

dropped_late-run :
    let p = happen_all dropped_late (open_pipe (opens reads) 3) in
    (p.stage ≡ returned finished) × (p.framed ≡ 1 ∷ 2 ∷ []) × (p.body.unsent ≡ 1)
unfolding happen_all open_pipe
dropped_late-run = (refl, refl, refl)

abbrev repeated : ℕ → List Event
repeated zero = []
repeated (suc n) = pumps ∷ polls ∷ repeated n

upload_completes_example :
    let p = happen_all (repeated 14) (open_pipe (opens reads) 3) in
    (is_end_stream p.body ≡ true) × (p.framed ≡ 1 ∷ 2 ∷ 3 ∷ [])
upload_completes_example =
    upload_completes reads (repeated 14) (omega arith) refl refl (omega arith)

-- A source that is longer than it promised: the last chunk is held back, so the body does not end.
too_long-run :
    let p = happen_all (repeated 8) (open_pipe (opens reads) 2) in
    (p.stage ≡ returned (failed source_ran_long))
    × (p.source_error ≡ some source_ran_long)
    × (p.framed ≡ [])
    × (is_end_stream p.body ≡ false)
unfolding happen_all open_pipe is_end_stream
too_long-run = (refl, refl, refl, refl)

-- The library drops the body: the next chunk is not taken.
body_dropped-run :
    let p =
      happen_all (pumps ∷ pumps ∷ pumps ∷ drops ∷ pumps ∷ pumps ∷ []) (open_pipe (opens reads) 3) in
    (p.stage ≡ returned abandoned) × (p.source_error ≡ none)
unfolding happen_all open_pipe
body_dropped-run = (refl, refl)
