-- ===== src/Stream/Pipe/Whole.antt =====
-- src/stream/body.rs: what the HTTP library gets of a streamed upload.
use mathlib.Core.List.{append_assoc}
use grindr_rs.Prelude.{
  ℕ, ◌≤◌, ◌<◌, true, false, none, some, List, [], ◌∷◌, ◌++◌, append_nil, Text, length, ltb, ◌==◌,
  ◌≡◌, refl, sym, ap, ◌∙◌, ◌⊎◌, inl, inr, arith, Bool-cases, length-append,
}
use package.grindr_rs.Stream.Pump.{finished, abandoned, failed}
use package.grindr_rs.Stream.Body.{is_end_stream, u64_mod}
use package.grindr_rs.Stream.Pipe.{
  Source, Stage, opening, reading, delivering, returned, Pipe, open_pipe, pump, Event, pumps, polls,
  abandons, drops, happen, happen_all,
}
use package.grindr_rs.Stream.Pipe.Flow.{joined, content_of, through, Stands, Flows}
use package.grindr_rs.Stream.Pipe.Pumped.{pump_at-Flows}
use package.grindr_rs.Stream.Pipe.Polled.{poll-Flows}

-- What the library got: all of the source, which has the promised size, once the body is at its end, and less
-- before; nothing if nothing was promised.
abbrev pub Delivered : ℕ → Text → Pipe → Type 0
Delivered size whole p =
    ((is_end_stream p.body ≡ true) × (p.framed ≡ whole) × (length whole ≡ size))
    ⊎ ((is_end_stream p.body ≡ false)
        × (rest : Text) × (p.framed ++ rest ≡ whole)
        × (length p.framed < size))
    ⊎ ((size ≡ 0) × (is_end_stream p.body ≡ true) × (p.framed ≡ []))

pub nothing_of : (t : Text) → length t ≡ 0 → t ≡ []
nothing_of [] e = refl
nothing_of (b ∷ bs) e = absurd (omega arith)

module _ (size : ℕ) (whole : Text) where
  pub happen-Flows :
      (e : Event) (p : Pipe) → size < u64_mod → Flows size whole p → Flows size whole (happen e p)
  unfolding happen pump
  happen-Flows pumps p small (rest, c, s) = pump_at-Flows size whole p.stage p rest refl c s
  happen-Flows polls p small f = poll-Flows size whole p small f
  happen-Flows abandons p small f = f
  happen-Flows drops p small f = f

  pub happen_all-Flows :
      (es : List Event) (p : Pipe)
      → size < u64_mod
      → Flows size whole p
      → Flows size whole (happen_all es p)
  unfolding happen_all
  happen_all-Flows [] p small f = f
  happen_all-Flows (e ∷ es) p small f =
      happen_all-Flows es (happen e p) small (happen-Flows e p small f)

  -- Only a pump that is through with its source has passed on the promised size.
  all_passed :
      (stage : Stage) (unread n : ℕ) (rest : Text)
      → Stands size stage unread n rest
      → size ≤ n
      → 0 < size
      → (rest ≡ []) × (n ≡ size)
  all_passed (opening source) unread n rest s all some_size = absurd (omega arith)
  all_passed (reading reads none) unread n rest s all some_size = absurd (omega arith)
  all_passed (reading reads (some held)) unread n rest s all some_size = absurd (omega arith)
  all_passed (delivering held bytes reads) unread n rest s all some_size = absurd (omega arith)
  all_passed (returned finished) unread n rest s all some_size = s
  all_passed (returned abandoned) unread n rest s all some_size = absurd (omega arith)
  all_passed (returned (failed e)) unread n rest s all some_size = absurd (omega arith)

  nothing_left : (t u : Text) → length (t ++ u) ≤ length t → t ++ u ≡ t
  nothing_left t [] few = append_nil t
  nothing_left t (b ∷ bs) few = absurd (omega (arith, length-append t (b ∷ bs)))

  all_framed :
      (p : Pipe)
      → length p.framed ≡ size
      → 0 < size
      → Flows size whole p
      → (p.framed ≡ whole) × (length whole ≡ size)
  all_framed p full some_size (rest, c, s) =
      let long = length-append p.framed (joined p.queue) in
      let (none_left, all) = all_passed p.stage p.unread _ rest s (omega (arith, long)) some_size in
      let same : through p ≡ whole =
        sym (append_nil (through p)) ∙ ap (λ t. through p ++ t) (sym none_left) ∙ c.0 in
      let framed : p.framed ≡ whole =
        sym (nothing_left p.framed (joined p.queue) (omega (arith, all))) ∙ same in
      (framed, sym (ap length framed) ∙ full)

  Flows-Delivered : (p : Pipe) → Flows size whole p → Delivered size whole p
  unfolding is_end_stream
  Flows-Delivered p (rest, (order, unsent, sent), s) = elim (Bool-cases (p.body.unsent == 0)) [
    | inr more ↦
        let order_rest : p.framed ++ (joined p.queue ++ rest) ≡ whole =
          sym (append_assoc p.framed (joined p.queue) rest) ∙ order in
        inr (inl (more, joined p.queue ++ rest, order_rest, ground arith))
    | inl at_end ↦ elim (Bool-cases (ltb 0 size)) [
      | inr empty ↦ inr (inr (ground arith, at_end, nothing_of p.framed (ground arith)))
      | inl some_size ↦
          let (framed, long) =
            all_framed p (ground arith) (ground arith) (rest, (order, unsent, sent), s) in
          inl (at_end, framed, long)
    ]
  ]

-- However the pump, the polls of the HTTP library and the drops of the upload or of its body interleave, the library
-- gets the bytes of the source in their order, and the body is at its end only when the library has got
-- all of them and they are as many as was promised, the size being a u64; if nothing was promised, the
-- body is at its end at once and the library gets nothing.
pub happen_all-Delivered :
    (source : Source) (size : ℕ) (es : List Event)
    → size < u64_mod
    → Delivered size (content_of source) (happen_all es (open_pipe source size))
unfolding open_pipe
happen_all-Delivered source size es small =
    Flows-Delivered size (content_of source) (happen_all es (open_pipe source size)) (
      happen_all-Flows size (content_of source) es (open_pipe source size) small
        (content_of source, (refl, omega arith, refl), (refl, refl, refl)))
