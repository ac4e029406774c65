-- ===== src/Media/Stream.antt =====
-- src/media/stream.rs: a media file that is read piece by piece.
pub mod Drained
use grindr_rs.Prelude.{ℕ, zero, suc, Option, none, some, List, [], ◌∷◌, ◌++◌, Text}
use grindr_rs.Error.{from_wreq, Result, ok, err}
use package.grindr_rs.Media.Transfer.{Piece, chunk}
use package.grindr_rs.Media.Request.{Target}
use package.grindr_rs.Media.Send.{
  Media, Client, Response, Progress, wait, record_progress, send_media,
}

-- `pieces` is what is left of the response.
pub record MediaStream : Type 0 where
  pub status : ℕ
  pub content_type : Option Text
  pub content_length : Option ℕ
  pub content_range : Option Text
  pub accept_ranges : Option Text
  pub pieces : List Piece
  pub progress : Progress

module _ (media : Media) where
  -- What `chunk` gives, the pieces that are left, and the client.
  unfoldable pub next_piece :
      List Piece → Progress → Client → Result (Option Text) × List Piece × Client
  unfolding wait record_progress
  next_piece [] progress c = (ok none, [], wait media c)
  next_piece (Piece.broken e ∷ pieces) progress c = (err (from_wreq e), pieces, wait media c)
  next_piece (chunk bytes ∷ pieces) progress c =
      (ok (some bytes), pieces, record_progress media progress (wait media c))

  -- `MediaStream::chunk`.
  unfoldable pub next_chunk : MediaStream → Client → Result (Option Text) × MediaStream × Client
  unfolding next_piece
  next_chunk s c =
      let (result, pieces, after) = next_piece s.pieces s.progress c in
      (result, record s { pieces = pieces }, after)

  unfoldable pub opened : Result (Response × Progress) × Client → Result MediaStream × Client
  opened (err e, c) = (err e, c)
  opened (ok (r, progress), c) = (
    ok (record {
      status = r.status;
      content_type = r.content_type;
      content_length = r.content_length;
      content_range = r.content_range;
      accept_ranges = r.accept_ranges;
      pieces = r.pieces;
      progress = progress;
    }),
    c,
  )

  unfoldable pub stream_media : Target → Client → Result MediaStream × Client
  unfolding send_media opened
  stream_media target c = opened (send_media media target c)

  -- A caller that asks for chunks until there is none, at most so often: `none` is one that has not yet
  -- come to the end.
  unfoldable pub drain : ℕ → Text → MediaStream → Client → Option (Result Text) × Client
  unfolding next_chunk
  drain zero body s c = (none, c)
  drain (suc n) body s c =
      let (result, rest, after) = next_chunk s c in
      elim result [
        | err e ↦ (some (err e), after)
        | ok none ↦ (some (ok body), after)
        | ok (some bytes) ↦ drain n (body ++ bytes) rest after
      ]
