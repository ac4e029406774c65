-- ===== src/Stream/Pipe.antt =====
-- src/stream/body.rs: a streamed upload as a whole. `StreamedBody::open` starts the pump on a thread of
-- its own and hands out the body; between them is a channel of `QUEUED_CHUNKS` chunks. The pump goes
-- from one call that can wait to the next, the body from poll to poll, in any order.
pub mod Completes
pub mod Flow
pub mod Kept
pub mod Polled
pub mod Pumped
pub mod Turns
pub mod Whole
use grindr_rs.Prelude.{
  ℕ, ◌-◌, Bool, true, false, not, ◌||◌, Option, none, some, List, [], ◌∷◌, ◌++◌, Text, length, ltb,
  if◌then◌else◌, ◌==◌,
}
use package.grindr_rs.Stream.Pump.{
  Read, got, interrupted, broken, Returned, finished, abandoned, failed, source_ended_early,
  source_ran_long,
}
use package.grindr_rs.Stream.Body.{
  StreamedBody, Received, waiting, chunk, closed, Frame, data_of, open_body, poll_frame,
}

abbrev pub queued_chunks : ℕ
queued_chunks = 2

-- What `open` of the source gives.
pub data Source : Type 0 where
  opens : List Read → Source
  refuses : Text → Source

-- Where the pump stands: it opens the source, it reads, it waits for room for the chunk that it held
-- with the chunk that it read after it, or it has returned and its sender is gone.
pub data Stage : Type 0 where
  opening : Source → Stage
  reading : List Read → Option Text → Stage
  delivering : Text → Text → List Read → Stage
  returned : Returned → Stage

-- `queue` holds the chunks in the channel, the oldest first, and `framed` the bytes that the HTTP
-- library got. `happened` is the abandonment, `dropped` says that the library dropped the body.
pub record Pipe : Type 0 where
  pub stage : Stage
  pub unread : ℕ
  pub queue : List Text
  pub body : StreamedBody
  pub framed : Text
  pub happened : Bool
  pub dropped : Bool
  pub source_error : Option Text

-- `StreamedBody::open`.
unfoldable pub open_pipe : Source → ℕ → Pipe
open_pipe source size = record {
  stage = opening source;
  unread = size;
  queue = [];
  body = open_body size;
  framed = [];
  happened = false;
  dropped = false;
  source_error = none;
}

abbrev error_of : Returned → Option Text
error_of (failed error) = some error
error_of r = none

-- The end of `run`.
unfoldable pub ends : Returned → Pipe → Pipe
ends r p = record p { stage = returned r; source_error = error_of r }

-- The rest of a round of `forward`, once the chunk that was held is delivered.
unfoldable pub goes_on : Text → List Read → Pipe → Pipe
unfolding ends
goes_on [] reads p = ends (if p.unread == 0 then finished else failed source_ended_early) p
goes_on (b ∷ bs) reads p = record p { stage = reading reads (some (b ∷ bs)) }

-- `held.take().is_none_or(|held| self.deliver(held))`, up to the wait for room.
unfoldable pub hand_over : Text → List Read → Option Text → Pipe → Pipe
unfolding goes_on
hand_over bytes reads none p = goes_on bytes reads p
hand_over bytes reads (some held) p = record p { stage = delivering held bytes reads }

-- A chunk was read, an empty one at the end of the source.
unfoldable pub takes_in : Text → List Read → Option Text → Pipe → Pipe
unfolding ends hand_over
takes_in bytes reads held p =
    if ltb p.unread (length bytes)
    then ends (failed source_ran_long) p
    else hand_over bytes reads held (record p { unread = p.unread - length bytes })

-- `deliver`: the abandonment comes first; without a receiver the channel refuses the chunk.
unfoldable pub deliver : Text → Text → List Read → Pipe → Pipe
unfolding ends goes_on
deliver held bytes reads p =
    if p.happened || p.dropped
    then ends abandoned p
    else if ltb (length p.queue) queued_chunks
    then goes_on bytes reads (record p { queue = p.queue ++ (held ∷ []) })
    else p

-- The pump goes on to its next wait.
unfoldable pub pump_at : Stage → Pipe → Pipe
unfolding ends takes_in deliver
pump_at (opening (opens reads)) p = record p { stage = reading reads none }
pump_at (opening (refuses error)) p = ends (failed error) p
pump_at (reading [] held) p = takes_in [] [] held p
pump_at (reading (interrupted ∷ reads) held) p = record p { stage = reading reads held }
pump_at (reading (broken error ∷ reads) held) p = ends (failed error) p
pump_at (reading (got bytes ∷ reads) held) p = takes_in bytes reads held p
pump_at (delivering held bytes reads) p = deliver held bytes reads p
pump_at (returned r) p = p

unfoldable pub pump : Pipe → Pipe
unfolding pump_at
pump p = pump_at p.stage p

abbrev pub at_empty : Stage → Received
at_empty (returned r) = closed
at_empty stage = waiting

-- `poll_recv` on the channel.
abbrev pub received : Stage → List Text → Received
received stage [] = at_empty stage
received stage (c ∷ cs) = chunk c

abbrev pub bytes_in : Frame → Text
bytes_in (data_of bytes) = bytes
bytes_in frame = []

-- A frame of data is a chunk that was taken out of the channel.
abbrev pub queue_after : Frame → List Text → List Text
queue_after (data_of bytes) (c ∷ cs) = cs
queue_after frame queue = queue

-- The HTTP library polls the body, if it still has it.
unfoldable pub poll : Pipe → Pipe
unfolding poll_frame
poll p =
    let (frame, after) = poll_frame p.body p.happened (received p.stage p.queue) in
    if p.dropped then p else record p {
      body = after;
      framed = p.framed ++ bytes_in frame;
      queue = queue_after frame p.queue;
    }

-- `AbandonOnDrop` is dropped, or the body is.
pub data Event : Type 0 where
  pumps : Event
  polls : Event
  abandons : Event
  drops : Event

unfoldable pub happen : Event → Pipe → Pipe
unfolding pump poll
happen pumps p = pump p
happen polls p = poll p
happen abandons p = record p { happened = true }
happen drops p = record p { dropped = true }

unfoldable pub happen_all : List Event → Pipe → Pipe
unfolding happen
happen_all [] p = p
happen_all (e ∷ es) p = happen_all es (happen e p)
