-- ===== src/Media/Transfer/Ceiling.antt =====
-- src/media.rs: the ceiling of a media body.
use mathlib.Core.List.{append_assoc}
use grindr_rs.Prelude.{
  ℕ, ◌+◌, ◌≤◌, List, [], ◌∷◌, ◌++◌, Text, length, length-append, ltb, leb, if◌then◌else◌, ◌≡◌, refl,
  sym, ap, arith, inl, inr, Bool-cases, true, false,
}
use grindr_rs.Error.{media_too_large, ok, err}
use package.grindr_rs.Media.Transfer.{Piece, chunk, read_from, read_body}

-- A body that arrives whole, in chunks.
abbrev pub whole : List Text → List Piece
whole [] = []
whole (bytes ∷ chunks) = chunk bytes ∷ whole chunks

abbrev pub joined : List Text → Text
joined [] = []
joined (bytes ∷ chunks) = bytes ++ joined chunks

append_nil : (xs : Text) → xs ++ [] ≡ xs
append_nil [] = refl
append_nil (x ∷ xs) = ap (λ ys. x ∷ ys) (append_nil xs)

read_from-whole :
    (max_bytes : ℕ) (body : Text) (chunks : List Text)
    → length body ≤ max_bytes
    → read_from max_bytes body (whole chunks) ≡ (
        if leb (length (body ++ joined chunks)) max_bytes
        then ok (body ++ joined chunks)
        else err (media_too_large max_bytes))
unfolding read_from
read_from-whole max_bytes body [] h =
    rw (append_nil body)
      (let fits : leb (length body) max_bytes ≡ true = ground arith in rw fits refl)
read_from-whole max_bytes body (bytes ∷ chunks) h =
    let parts = length-append body bytes in
    let all_parts = length-append (body ++ bytes) (joined chunks) in
    let assoc = sym (append_assoc body bytes (joined chunks)) in
    elim (Bool-cases (ltb max_bytes (length body + length bytes))) [
      | inl over ↦
          let big : leb (length ((body ++ bytes) ++ joined chunks)) max_bytes ≡ false =
            ground (arith, parts, all_parts) in
          rw (over, assoc, big) refl
      | inr under ↦
          rw (under, assoc)
            (read_from-whole max_bytes (body ++ bytes) chunks (ground (arith, parts)))
    ]

-- A body that arrives whole is returned whole if it is no longer than the ceiling, and is otherwise
-- refused, however it is cut into chunks.
pub read_body-whole :
    (max_bytes : ℕ) (chunks : List Text)
    → read_body max_bytes (whole chunks) ≡ (
        if leb (length (joined chunks)) max_bytes
        then ok (joined chunks)
        else err (media_too_large max_bytes))
unfolding read_body
read_body-whole max_bytes chunks = read_from-whole max_bytes [] chunks (omega arith)
