-- ===== src/Media/Transfer.antt =====
-- src/media.rs `read_body`: a body that is read up to a ceiling.
pub mod Ceiling
use grindr_rs.Prelude.{ℕ, ◌+◌, List, [], ◌∷◌, ◌++◌, Text, length, ltb, if◌then◌else◌}
use grindr_rs.Error.{WreqError, from_wreq, GrindrError, media_too_large, Result, ok, err}

-- What the response gives: a chunk or an error; the body ends after the last of a list.
pub data Piece : Type 0 where
  chunk : Text → Piece
  broken : WreqError → Piece

-- The loop, with the bytes that were read so far.
unfoldable pub read_from : ℕ → Text → List Piece → Result Text
read_from max_bytes body [] = ok body
read_from max_bytes body (broken error ∷ pieces) = err (from_wreq error)
read_from max_bytes body (chunk bytes ∷ pieces) =
    let rest = read_from max_bytes (body ++ bytes) pieces in
    if ltb max_bytes (length body + length bytes) then err (media_too_large max_bytes) else rest

unfoldable pub read_body : ℕ → List Piece → Result Text
unfolding read_from
read_body max_bytes pieces = read_from max_bytes [] pieces
