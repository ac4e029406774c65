-- ===== src/TestServer/Paced.antt =====
-- src/testserver.rs `read_body` and `write_body`: the pauses change nothing of what is read and written.
use grindr_rs.Prelude.{
  append_nil, ◌-◌, ℕ, zero, suc, ◌+◌, ◌≤◌, true, false, Option, none, some, List, [], ◌∷◌, ◌++◌,
  Text, take, drop, length, map_option, ltb, ◌≡◌, refl, ap, ◌∙◌, arith, inl, inr, Bool-cases,
  length-append, is_some,
}
use package.grindr_rs.TestServer.Media.{Reply}
use package.grindr_rs.TestServer.Serve.{
  slow_read_chunks, chunks_on, chunks, read_exact, read_chunks, zeros, read_paced, read_body,
  piece_length, write_body, slow_pause,
}

abbrev pub concat : List Text → Text
concat [] = []
concat (piece ∷ pieces) = piece ++ concat pieces

take-drop : (n : ℕ) (s : Text) → take n s ++ drop n s ≡ s
take-drop zero s = refl
take-drop (suc n) [] = refl
take-drop (suc n) (b ∷ s) = ap (λ t. b ∷ t) (take-drop n s)

length-drop : (n : ℕ) (s : Text) → length (drop n s) ≡ length s - n
length-drop zero s = omega arith
length-drop (suc n) [] = omega arith
length-drop (suc n) (b ∷ s) = omega (arith, length-drop n s)

take-take-drop : (m n k : ℕ) (s : Text) → m + n ≡ k → take m s ++ take n (drop m s) ≡ take k s
take-take-drop zero n k s e = let same : n ≡ k = omega arith in ap (λ i. take i s) same
take-take-drop (suc m) n zero s e = absurd (omega arith)
take-take-drop (suc m) zero (suc k) [] e = refl
take-take-drop (suc m) (suc n) (suc k) [] e = refl
take-take-drop (suc m) n (suc k) (b ∷ s) e = ap (λ t. b ∷ t) (take-take-drop m n k s (omega arith))

concat-chunks_on :
    (fuel size : ℕ) (s : Text) → 1 ≤ size → length s ≤ fuel → concat (chunks_on fuel size s) ≡ s
unfolding chunks_on
concat-chunks_on zero size [] positive enough = refl
concat-chunks_on zero size (b ∷ s) positive enough = absurd (omega arith)
concat-chunks_on (suc fuel) size [] positive enough = refl
concat-chunks_on (suc fuel) size (b ∷ s) positive enough =
    let shorter = length-drop size (b ∷ s) in
    rw (concat-chunks_on fuel size (drop size (b ∷ s)) positive (omega (arith, shorter)))
      (take-drop size (b ∷ s))

pub concat-chunks : (size : ℕ) (s : Text) → 1 ≤ size → concat (chunks size s) ≡ s
unfolding chunks
concat-chunks size s positive = concat-chunks_on (length s) size s positive (omega arith)

abbrev read_whole : ℕ → Text → Option Text
read_whole n input = map_option (λ parts. parts.0) (read_exact n input)

read_chunks_whole :
    (pieces : List Text) (input : Text)
    → read_chunks pieces input ≡ read_whole (length (concat pieces)) input
unfolding read_chunks read_exact
read_chunks_whole [] input =
    let none_short : ltb (length input) 0 ≡ false = ground arith in rw none_short refl
read_chunks_whole (piece ∷ pieces) input =
    let all = length-append piece (concat pieces) in
    let left = length-drop (length piece) input in
    elim (Bool-cases (ltb (length input) (length piece))) [
      | inl short ↦
          let shorter : ltb (length input) (length piece + length (concat pieces)) ≡ true =
            ground arith in
          rw (short, all, shorter) refl
      | inr enough ↦
          elim (Bool-cases (ltb (length (drop (length piece) input)) (length (concat pieces)))) [
            | inl short ↦
                let shorter : ltb (length input) (length piece + length (concat pieces)) ≡ true =
                  ground (arith, left) in
                rw
                  (
                    enough,
                    read_chunks_whole pieces (drop (length piece) input),
                    short,
                    all,
                    shorter,
                  )
                  refl
            | inr more ↦
                let longer : ltb (length input) (length piece + length (concat pieces)) ≡ false =
                  ground (arith, left) in
                rw (enough, read_chunks_whole pieces (drop (length piece) input), more, all, longer)
                  (ap some (take-take-drop (length piece) (length (concat pieces)) _ input refl))
          ]
    ]

length-zeros : (n : ℕ) → length (zeros n) ≡ n
unfolding zeros
length-zeros zero = refl
length-zeros (suc n) = omega (arith, length-zeros n)

read_paced_whole :
    (n : ℕ) (input : Text) (pause : Option ℕ) → read_paced n input pause ≡ read_whole n input
unfolding read_paced piece_length
read_paced_whole n input none = refl
read_paced_whole n input (some millis) =
    read_chunks_whole _ input
    ∙ rw (concat-chunks (piece_length n slow_read_chunks) (zeros n) (omega arith), length-zeros n)
        refl

-- The body of a request is its first bytes, as many as its length says, or nothing if fewer come, whatever
-- the path asks for.
pub read_body_whole : (input path : Text) (n : ℕ) → read_body input path n ≡ read_whole n input
unfolding read_body
read_body_whole input path n = read_paced_whole n input (slow_pause path)

-- What is written is the body of the reply, whatever its pace.
pub concat-write_body : (reply : Reply) → concat (write_body reply) ≡ reply.body
unfolding write_body piece_length
concat-write_body reply = elim (Bool-cases (is_some reply.pace)) [
  | inl paced ↦ rw paced (concat-chunks _ reply.body (omega arith))
  | inr whole ↦ rw whole (append_nil reply.body)
]
