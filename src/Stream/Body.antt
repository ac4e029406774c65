-- ===== src/Stream/Body.antt =====
-- src/stream/body.rs `StreamedBody`: the body that the HTTP library polls. What its channel gives at
-- a poll is an argument.
pub mod Counted
use grindr_rs.Prelude.{
  ℕ, ◌+◌, ◌-◌, ◌%◌, Bool, true, false, List, [], ◌∷◌, Text, length, leb, if◌then◌else◌, ◌==◌,
}

abbrev pub u64_mod : ℕ
u64_mod = 18_446_744_073_709_551_616

-- `sent` is the counter that the watchdog reads.
pub record StreamedBody : Type 0 where
  pub unsent : ℕ
  pub sent : ℕ

-- `poll_recv` on the channel of chunks: nothing so far, a chunk, or its end.
pub data Received : Type 0 where
  waiting : Received
  chunk : Text → Received
  closed : Received

pub data Frame : Type 0 where
  pending : Frame
  ended : Frame
  cancelled : Frame
  data_of : Text → Frame

-- `StreamedBody::open`.
abbrev pub open_body : ℕ → StreamedBody
open_body size = record { unsent = size; sent = 0 }

-- `-=` on a `u64`.
abbrev pub minus_u64 : ℕ → ℕ → ℕ
minus_u64 a b = if leb b a then a - b else a + u64_mod - b

abbrev pub take_frame : StreamedBody → Received → Frame × StreamedBody
take_frame body waiting = (pending, body)
take_frame body closed = (cancelled, body)
take_frame body (chunk bytes) = (
  data_of bytes,
  record {
    unsent = minus_u64 body.unsent (length bytes);
    sent = (body.sent + length bytes) % u64_mod;
  },
)

-- `poll_frame`; the Boolean says whether the upload was abandoned.
unfoldable pub poll_frame : StreamedBody → Bool → Received → Frame × StreamedBody
poll_frame body has_happened received =
    if body.unsent == 0
    then (ended, body)
    else if has_happened
    then (cancelled, body)
    else take_frame body received

unfoldable pub is_end_stream : StreamedBody → Bool
is_end_stream body = body.unsent == 0

-- The frames of a row of polls, the first one first.
unfoldable pub poll_all : StreamedBody → List (Bool × Received) → List Frame × StreamedBody
unfolding poll_frame
poll_all body [] = ([], body)
poll_all body ((has_happened, received) ∷ polls) =
    let (frame, after) = poll_frame body has_happened received in
    let (frames, last) = poll_all after polls in (frame ∷ frames, last)
