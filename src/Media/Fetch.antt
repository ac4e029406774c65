-- ===== src/Media/Fetch.antt =====
-- src/media.rs `fetch_media`: a media file that is read whole, up to a ceiling.
pub mod Fits
use grindr_rs.Prelude.{
  ℕ, ◌+◌, Bool, true, false, Option, List, [], ◌∷◌, ◌++◌, Text, length, is_some_and, ltb,
  if◌then◌else◌,
}
use grindr_rs.Error.{unfinished, timeout, media_too_large, from_wreq, Result, ok, err}
use package.grindr_rs.Media.Transfer.{Piece, chunk}
use package.grindr_rs.Media.Request.{Target}
use package.grindr_rs.Media.Send.{
  Media, Client, Response, Progress, wait, record_progress, send_media,
}

pub record MediaRequest : Type 0 where
  pub target : Target
  pub max_bytes : ℕ

pub record MediaResponse : Type 0 where
  pub status : ℕ
  pub content_type : Option Text
  pub content_range : Option Text
  pub accept_ranges : Option Text
  pub body : Text

module _ (media : Media) where
  -- `read_body`, with the progress that it records; a piece is waited for. The list ends with the body or
  -- at its deadline.
  unfoldable pub read_pieces : ℕ → Progress → Text → List Piece → Client → Result Text × Client
  unfolding wait record_progress
  read_pieces max_bytes progress body [] c = (ok body, wait media c)
  read_pieces max_bytes progress body (Piece.broken e ∷ pieces) c =
      (err (from_wreq e), wait media c)
  read_pieces max_bytes progress body (chunk bytes ∷ pieces) c =
      let recorded = record_progress media progress (wait media c) in
      let rest = read_pieces max_bytes progress (body ++ bytes) pieces recorded in
      if ltb max_bytes (length body + length bytes)
      then (err (media_too_large max_bytes), recorded)
      else rest

  -- The body within its deadline.
  unfoldable pub in_time : Bool → Result Text × Client → Result Text × Client
  in_time whole (err e, c) = (err e, c)
  in_time true (ok body, c) = (ok body, c)
  in_time false (ok body, c) = (err (timeout unfinished), c)

  unfoldable pub response_of : Response → Result Text × Client → Result MediaResponse × Client
  response_of r (err e, c) = (err e, c)
  response_of r (ok body, c) = (
    ok (record {
      status = r.status;
      content_type = r.content_type;
      content_range = r.content_range;
      accept_ranges = r.accept_ranges;
      body = body;
    }),
    c,
  )

  -- After `send_media`: a body that is announced as too large is not read.
  unfoldable pub fetched : ℕ → Result (Response × Progress) × Client → Result MediaResponse × Client
  unfolding read_pieces in_time response_of
  fetched max_bytes (err e, c) = (err e, c)
  fetched max_bytes (ok (r, progress), c) =
      if is_some_and r.content_length (λ len. ltb max_bytes len)
      then (err (media_too_large max_bytes), c)
      else response_of r (in_time r.whole (read_pieces max_bytes progress [] r.pieces c))

  unfoldable pub fetch_media : MediaRequest → Client → Result MediaResponse × Client
  unfolding send_media fetched
  fetch_media request c = fetched request.max_bytes (send_media media request.target c)
