-- ===== src/Stream/Body/Counted.antt =====
-- src/stream/body.rs: the bytes that a streamed body has framed.
use grindr_rs.Prelude.{ℕ, ◌+◌, ◌≤◌, ◌<◌, Bool, List, [], ◌∷◌, length, ◌==◌, ◌≡◌, arith}
use package.grindr_rs.Stream.Body.{
  StreamedBody, Received, waiting, chunk, closed, Frame, data_of, u64_mod, open_body, poll_frame,
  poll_all, is_end_stream,
}

abbrev size_of : Received → ℕ
size_of (chunk bytes) = length bytes
size_of received = 0

-- The bytes of the chunks that the channel gives in a row of polls.
abbrev pub offered : List (Bool × Received) → ℕ
offered [] = 0
offered ((has_happened, received) ∷ polls) = size_of received + offered polls

abbrev framed_by : Frame → ℕ
framed_by (data_of bytes) = length bytes
framed_by frame = 0

-- The bytes of the frames.
abbrev pub framed : List Frame → ℕ
framed [] = 0
framed (frame ∷ frames) = framed_by frame + framed frames

-- A frame moves its bytes from `unsent` to `sent`.
poll_frame-moves :
    (body : StreamedBody) (has_happened : Bool) (received : Received)
    → size_of received ≤ body.unsent
    → body.sent + body.unsent < u64_mod
    → let (frame, after) = poll_frame body has_happened received in
      (after.sent ≡ body.sent + framed_by frame)
      × (after.unsent + framed_by frame ≡ body.unsent)
      × (framed_by frame ≤ size_of received)
unfolding poll_frame
poll_frame-moves body has_happened waiting h small = ground arith
poll_frame-moves body has_happened closed h small = ground arith
poll_frame-moves body has_happened (chunk bytes) h small = ground arith

poll_all-moves :
    (polls : List (Bool × Received)) (body : StreamedBody)
    → offered polls ≤ body.unsent
    → body.sent + body.unsent < u64_mod
    → let (frames, last) = poll_all body polls in
      (last.sent ≡ body.sent + framed frames) × (last.unsent + framed frames ≡ body.unsent)
unfolding poll_all
poll_all-moves [] body h small = (omega arith, omega arith)
poll_all-moves ((has_happened, received) ∷ polls) body h small =
    let (sent, unsent, few) = poll_frame-moves body has_happened received (omega arith) small in
    let after = (poll_frame body has_happened received).1 in
    let (rest_sent, rest_unsent) =
      poll_all-moves polls after (omega (arith, sent, unsent, few))
        (omega (arith, sent, unsent, few)) in
    (omega (arith, sent, rest_sent), omega (arith, unsent, rest_unsent))

-- However a body of `size` bytes, a `u64`, is polled, if its chunks hold no more than `size` bytes: the counter
-- of sent bytes is the number of bytes in its frames, with the rest it makes up the size, and the
-- body is at its end exactly when all of its bytes were framed.
pub poll_all-counted :
    (size : ℕ) (polls : List (Bool × Received))
    → size < u64_mod
    → offered polls ≤ size
    → let (frames, last) = poll_all (open_body size) polls in
      (last.sent ≡ framed frames)
      × (last.sent + last.unsent ≡ size)
      × (is_end_stream last ≡ (framed frames == size))
unfolding is_end_stream
poll_all-counted size polls h few =
    let (sent, unsent) = poll_all-moves polls (open_body size) few (omega arith) in
    (omega (arith, sent), omega (arith, sent, unsent), ground (arith, sent, unsent))
