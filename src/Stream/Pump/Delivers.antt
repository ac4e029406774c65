-- ===== src/Stream/Pump/Delivers.antt =====
-- src/stream/body.rs: what the pump has handed on when it returns.
use mathlib.Core.List.{append_assoc}
use grindr_rs.Prelude.{
  append_nil, ℕ, ◌+◌, ◌-◌, ◌≤◌, ◌<◌, Bool, false, Option, none, some, List, [], ◌∷◌, ◌++◌, Text,
  length, ltb, if◌then◌else◌, ◌==◌, ◌≡◌, refl, sym, ap, ◌∙◌, ◌⊎◌, inl, inr, arith, Bool-cases,
  length-append,
}
use package.grindr_rs.Stream.Pump.{
  source_ran_long, source_ended_early, Read, got, interrupted, broken, finished, abandoned, failed,
  Pumped, at_end, forward_from, forward,
}

-- The bytes of the source, up to its end.
abbrev pub content : List Read → Text
content [] = []
content (got [] ∷ reads) = []
content (got (b ∷ bs) ∷ reads) = (b ∷ bs) ++ content reads
content (interrupted ∷ reads) = content reads
content (broken error ∷ reads) = []

-- Chunks in the order of their delivery.
abbrev pub joined : List Text → Text
joined [] = []
joined (chunk ∷ older) = joined older ++ chunk

-- What a return says of the bytes that were handed on: the whole source, which has the promised
-- size, or a part of it that is too short for the promised size.
abbrev pub Verdict : ℕ → Text → Pumped → Type 0
Verdict size whole (finished, delivered) = (joined delivered ≡ whole) × (length whole ≡ size)
Verdict size whole (abandoned, delivered) =
    (rest : Text) × (joined delivered ++ rest ≡ whole) × (length (joined delivered) < size)
Verdict size whole (failed error, delivered) =
    (rest : Text) × (joined delivered ++ rest ≡ whole)
    × ((length (joined delivered) < size) ⊎ (size ≡ 0))

abbrev bytes_of : Option Text → Text
bytes_of none = []
bytes_of (some chunk) = chunk

-- What holds in each round of the loop: only the first holds nothing.
record Round (size : ℕ) (whole : Text) (reads : List Read) (unread : ℕ) (held : Option Text)
    (delivered : List Text) : Type 0 where
  counted : length (joined delivered) + length (bytes_of held) + unread ≡ size
  ordered : joined delivered ++ (bytes_of held ++ content reads) ≡ whole
  first : ((held ≡ none) × (delivered ≡ [])) ⊎ (0 < length (bytes_of held))

module _ (takes : ℕ → Bool) (size : ℕ) (whole : Text) where
  failing :
      {reads : List Read} {unread : ℕ} {held : Option Text} {delivered : List Text} (error : Text)
      → Round size whole reads unread held delivered
      → Verdict size whole (failed error, delivered)
  failing {reads} {unread} {held} {delivered} error r = (
    bytes_of held ++ content reads,
    r.ordered,
    elim r.first [
      | inl (e, d) ↦ elim (Bool-cases (ltb 0 size)) [
        | inl h ↦ inl (let z : length (joined delivered) ≡ 0 = rw d refl in ground arith)
        | inr h ↦ inr (ground arith)
      ]
      | inr h ↦ inl (omega (arith, r.counted))
    ],
  )

  closing :
      (now : List Text) (unread : ℕ)
      → joined now ++ [] ≡ whole
      → length (joined now) + unread ≡ size
      → Verdict size whole (if unread == 0 then finished else failed source_ended_early, now)
  closing now unread p counted =
      let same : joined now ≡ whole = sym (append_nil (joined now)) ∙ p in
      elim (Bool-cases (unread == 0)) [
        | inl z ↦ rw z (same, sym (ap length same) ∙ ground arith)
        | inr n ↦ rw n ([], p, inl (ground arith))
      ]

  hand_on_order :
      (delivered : List Text) (chunk rest : Text)
      → joined delivered ++ (chunk ++ rest) ≡ whole
      → joined (chunk ∷ delivered) ++ rest ≡ whole
  hand_on_order delivered chunk rest p = append_assoc (joined delivered) chunk rest ∙ p

  refused_short :
      {reads : List Read} (unread : ℕ) (chunk : Text) (delivered : List Text)
      → Round size whole reads unread (some chunk) delivered
      → length (joined delivered) < size
  refused_short unread chunk delivered r = elim r.first [
    | inl (e, d) ↦ absurd (ground arith)
    | inr h ↦ omega (arith, r.counted)
  ]

  at_end-Verdict :
      {reads : List Read} (unread : ℕ) (held : Option Text) (delivered : List Text)
      → content reads ≡ []
      → Round size whole reads unread held delivered
      → Verdict size whole (at_end takes unread held delivered)
  unfolding at_end
  at_end-Verdict unread none delivered e r =
      closing delivered unread (rw (sym e) r.ordered) (omega (arith, r.counted))
  at_end-Verdict {reads} unread (some chunk) delivered e r =
      elim (Bool-cases (takes (length delivered))) [
        | inl taken ↦ rw taken (
            closing (chunk ∷ delivered) unread
              (hand_on_order delivered chunk [] (rw (sym e) r.ordered))
              (omega (arith, r.counted, length-append (joined delivered) chunk)))
        | inr refused ↦
            rw refused (chunk ++ content reads, r.ordered, refused_short unread chunk delivered r)
      ]

  next_chunk :
      {reads : List Read} (b : ℕ) (bs : Text) (unread : ℕ) (held : Option Text)
      (delivered now : List Text)
      → ltb unread (length (b ∷ bs)) ≡ false
      → length (joined now) ≡ length (joined delivered) + length (bytes_of held)
      → joined now ++ ((b ∷ bs) ++ content reads) ≡ whole
      → Round size whole (got (b ∷ bs) ∷ reads) unread held delivered
      → Round size whole reads (unread - length (b ∷ bs)) (some (b ∷ bs)) now
  next_chunk b bs unread held delivered now fits moved order r = record {
    counted =
        let le : length (b ∷ bs) ≤ unread = ground arith in omega (arith, r.counted, moved, le);
    ordered = order;
    first = inr (omega arith);
  }

  forward_from-Verdict :
      (reads : List Read) (unread : ℕ) (held : Option Text) (delivered : List Text)
      → Round size whole reads unread held delivered
      → Verdict size whole (forward_from takes reads unread held delivered)
  unfolding forward_from
  forward_from-Verdict [] unread held delivered r = at_end-Verdict unread held delivered refl r
  forward_from-Verdict (interrupted ∷ reads) unread held delivered r =
      forward_from-Verdict reads unread held delivered
        (record { counted = r.counted; ordered = r.ordered; first = r.first })
  forward_from-Verdict (broken error ∷ reads) unread held delivered r = failing error r
  forward_from-Verdict (got [] ∷ reads) unread held delivered r =
      at_end-Verdict unread held delivered refl r
  forward_from-Verdict (got (b ∷ bs) ∷ reads) unread none delivered r =
      elim (Bool-cases (ltb unread (length (b ∷ bs)))) [
        | inl long ↦ rw long (failing source_ran_long r)
        | inr fits ↦ rw fits (
            forward_from-Verdict reads _ (some (b ∷ bs)) delivered
              (next_chunk b bs unread none delivered delivered fits (omega arith) r.ordered r))
      ]
  forward_from-Verdict (got (b ∷ bs) ∷ reads) unread (some chunk) delivered r =
      elim (Bool-cases (ltb unread (length (b ∷ bs)))) [
        | inl long ↦ rw long (failing source_ran_long r)
        | inr fits ↦ elim (Bool-cases (takes (length delivered))) [
          | inl taken ↦
              rw (fits, taken)
                (forward_from-Verdict reads _ (some (b ∷ bs)) (chunk ∷ delivered) (
                  next_chunk b bs unread (some chunk) delivered (chunk ∷ delivered) fits
                    (length-append (joined delivered) chunk)
                    (hand_on_order delivered chunk _ r.ordered) r))
          | inr refused ↦
              rw (fits, refused)
                (
                  chunk ++ content (got (b ∷ bs) ∷ reads),
                  r.ordered,
                  refused_short unread chunk delivered r,
                )
        ]
      ]

-- Whatever the source yields and whichever chunks are taken: the pump has handed on the bytes of the
-- source in order; if it finished, all of them, and they are as many as the source promised; if a
-- chunk was refused or the source failed, fewer than promised, or none if none were promised.
pub forward-Verdict :
    (takes : ℕ → Bool) (reads : List Read) (size : ℕ)
    → Verdict size (content reads) (forward takes reads size)
unfolding forward
forward-Verdict takes reads size =
    forward_from-Verdict takes size (content reads) reads size none []
      (record { counted = omega arith; ordered = refl; first = inl (refl, refl) })
