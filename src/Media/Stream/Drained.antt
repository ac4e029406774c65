-- ===== src/Media/Stream/Drained.antt =====
-- src/media/stream.rs: a stream that is read to its end, against a fetch.
use grindr_rs.Prelude.{
  ℕ, zero, suc, ◌+◌, ◌≤◌, ◌<◌, false, some, List, [], ◌∷◌, ◌++◌, Text, length, length-append, ltb,
  ◌≡◌, refl, arith,
}
use package.grindr_rs.Media.Transfer.{Piece, chunk}
use package.grindr_rs.Media.Send.{Media, Client, wait, record_progress}
use package.grindr_rs.Media.Fetch.{read_pieces}
use package.grindr_rs.Media.Stream.{MediaStream, next_piece, next_chunk, drain}

-- The bytes of the pieces.
abbrev pub size_of : List Piece → ℕ
size_of [] = 0
size_of (chunk bytes ∷ pieces) = length bytes + size_of pieces
size_of (Piece.broken e ∷ pieces) = size_of pieces

module _ (media : Media) (max_bytes : ℕ) where
  drain_from :
      (pieces : List Piece) (n : ℕ) (body : Text) (s : MediaStream) (c : Client)
      → s.pieces ≡ pieces
      → length pieces < n
      → length body + size_of pieces ≤ max_bytes
      → drain media n body s c ≡ (
        some (read_pieces media max_bytes s.progress body pieces c).0,
        (read_pieces media max_bytes s.progress body pieces c).1,
      )
  unfolding drain next_chunk next_piece read_pieces
  drain_from pieces zero body s c e more fits = absurd (omega arith)
  drain_from [] (suc n) body s c e more fits = rw e refl
  drain_from (Piece.broken x ∷ pieces) (suc n) body s c e more fits = rw e refl
  drain_from (chunk bytes ∷ pieces) (suc n) body s c e more fits =
      let under : ltb max_bytes (length body + length bytes) ≡ false = ground arith in
      rw (e, under)
        (drain_from pieces n (body ++ bytes) (record s { pieces = pieces })
          (record_progress media s.progress (wait media c)) refl (omega arith)
          (omega (arith, length-append body bytes)))

  -- A stream whose chunks are asked for until there is none, once more often than it has pieces, gives the
  -- body or the error that a fetch would read of the same pieces, and leaves the client as the fetch
  -- would, if the pieces are no longer than the ceiling of the fetch.
  pub drain-read_pieces :
      (n : ℕ) (s : MediaStream) (c : Client)
      → length s.pieces < n
      → size_of s.pieces ≤ max_bytes
      → drain media n [] s c ≡ (
        some (read_pieces media max_bytes s.progress [] s.pieces c).0,
        (read_pieces media max_bytes s.progress [] s.pieces c).1,
      )
  drain-read_pieces n s c more fits = drain_from s.pieces n [] s c refl more (omega arith)
