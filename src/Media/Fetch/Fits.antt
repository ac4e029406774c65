-- ===== src/Media/Fetch/Fits.antt =====
-- src/media.rs `fetch_media`: the size of what it returns.
use grindr_rs.Prelude.{
  ℕ, ◌+◌, ◌≤◌, List, [], ◌∷◌, ◌++◌, Text, length, length-append, is_some_and, ltb, ◌≡◌, refl, sym,
  subst, ◌∙◌, arith, inl, inr, Bool-cases,
}
use grindr_rs.Error.{Result, ok, err}
use package.grindr_rs.Media.Transfer.{Piece, chunk, read_from}
use package.grindr_rs.Media.Send.{
  Media, Client, Response, Progress, wait, record_progress, send_media,
}
use package.grindr_rs.Media.Send.Twice.{AtMost, send_media-AtMost}
use package.grindr_rs.Media.Fetch.{
  MediaRequest, MediaResponse, read_pieces, in_time, response_of, fetched, fetch_media,
}

-- A body that was read is no longer than the ceiling.
abbrev Within : ℕ → Result Text → Type 0
Within max_bytes (ok body) = length body ≤ max_bytes
Within max_bytes (err e) = Unit

abbrev pub Fits : ℕ → Result MediaResponse → Type 0
Fits max_bytes (ok response) = length response.body ≤ max_bytes
Fits max_bytes (err e) = Unit

module _ (media : Media) where
  read_pieces-Within :
      (max_bytes : ℕ) (progress : Progress) (body : Text) (pieces : List Piece) (c : Client)
      → length body ≤ max_bytes
      → let (result, after) = read_pieces media max_bytes progress body pieces c in
        Within max_bytes result × (after.sent ≡ c.sent)
  unfolding read_pieces wait record_progress
  read_pieces-Within max_bytes progress body [] c h = (h, refl)
  read_pieces-Within max_bytes progress body (Piece.broken e ∷ pieces) c h = (tt, refl)
  read_pieces-Within max_bytes progress body (chunk bytes ∷ pieces) c h =
      elim (Bool-cases (ltb max_bytes (length body + length bytes))) [
        | inl over ↦ rw over (tt, refl)
        | inr under ↦ rw under (
            read_pieces-Within max_bytes progress (body ++ bytes) pieces
              (record_progress media progress (wait media c))
              (ground (arith, length-append body bytes)))
      ]

  -- The loop reads what `read_body` returns.
  pub read_pieces-read_from :
      (max_bytes : ℕ) (progress : Progress) (body : Text) (pieces : List Piece) (c : Client)
      → (read_pieces media max_bytes progress body pieces c).0 ≡ read_from max_bytes body pieces
  unfolding read_pieces read_from
  read_pieces-read_from max_bytes progress body [] c = refl
  read_pieces-read_from max_bytes progress body (Piece.broken e ∷ pieces) c = refl
  read_pieces-read_from max_bytes progress body (chunk bytes ∷ pieces) c =
      elim (Bool-cases (ltb max_bytes (length body + length bytes))) [
        | inl over ↦ rw over refl
        | inr under ↦ rw under (
            read_pieces-read_from max_bytes progress (body ++ bytes) pieces
              (record_progress media progress (wait media c)))
      ]

  answer-Fits :
      (max_bytes : ℕ) (r : Response) (read : Result Text × Client)
      → Within max_bytes read.0
      → let (result, after) = response_of media r (in_time media r.whole read) in
        Fits max_bytes result × (after.sent ≡ read.1.sent)
  unfolding response_of in_time
  answer-Fits max_bytes r (err e, c) h = (tt, refl)
  answer-Fits max_bytes r (ok body, c) h = elim (Bool-cases r.whole) [
    | inl whole ↦ rw whole (h, refl)
    | inr late ↦ rw late (tt, refl)
  ]

  fetched-Fits :
      (max_bytes : ℕ) (sent : Result (Response × Progress) × Client)
      → let (result, after) = fetched media max_bytes sent in
        Fits max_bytes result × (after.sent ≡ sent.1.sent)
  unfolding fetched
  fetched-Fits max_bytes (err e, c) = (tt, refl)
  fetched-Fits max_bytes (ok (r, progress), c) =
      elim (Bool-cases (is_some_and r.content_length (λ len. ltb max_bytes len))) [
        | inl announced ↦ rw announced (tt, refl)
        | inr small ↦
            let read = read_pieces-Within max_bytes progress [] r.pieces c (omega arith) in
            let answer =
              answer-Fits max_bytes r (read_pieces media max_bytes progress [] r.pieces c) read.0 in
            rw small (answer.0, answer.1 ∙ read.1)
      ]

  -- A fetch of a media file returns an error or a body that is no longer than the ceiling, and sends at most
  -- two requests, each of which follows at most five redirects; all of them go to https URLs on allowed hosts.
  pub fetch_media-Fits :
      (request : MediaRequest) (c : Client)
      → let (result, after) = fetch_media media request c in
        Fits request.max_bytes result × AtMost 2 c.sent after.sent
  unfolding fetch_media
  fetch_media-Fits request c =
      let done = fetched-Fits request.max_bytes (send_media media request.target c) in
      (done.0, subst (AtMost 2 c.sent) (sym done.1) (send_media-AtMost media request.target c))
