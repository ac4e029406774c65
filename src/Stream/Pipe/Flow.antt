-- ===== src/Stream/Pipe/Flow.antt =====
-- src/stream/body.rs: where the bytes of the source are while a streamed upload runs.
use mathlib.Core.List.{append_assoc}
use grindr_rs.Prelude.{
  ℕ, ◌+◌, ◌<◌, none, some, List, [], ◌∷◌, ◌++◌, append_nil, Text, length, ◌≡◌, sym, ap, ◌∙◌, ◌⊎◌,
}
use package.grindr_rs.Stream.Pump.{got, finished}
use package.grindr_rs.Stream.Pump.Delivers.{content}
use package.grindr_rs.Stream.Pipe.{
  Source, opens, refuses, Stage, opening, reading, delivering, returned, Pipe,
}

-- The chunks of a channel in their order.
abbrev pub joined : List Text → Text
joined [] = []
joined (c ∷ cs) = c ++ joined cs

pub joined-snoc : (queue : List Text) (c : Text) → joined (queue ++ (c ∷ [])) ≡ joined queue ++ c
joined-snoc [] c = append_nil c
joined-snoc (d ∷ ds) c = ap (λ t. d ++ t) (joined-snoc ds c) ∙ sym (append_assoc d (joined ds) c)

-- The bytes that the source has, up to its end.
abbrev pub content_of : Source → Text
content_of (opens reads) = content reads
content_of (refuses error) = []

-- The bytes that went through the channel.
abbrev pub through : Pipe → Text
through p = p.framed ++ joined p.queue

-- What a stage of the pump says of the number `n` of bytes that went through the channel and of the `rest`
-- that did not.
abbrev pub Stands : ℕ → Stage → ℕ → ℕ → Text → Type 0
Stands size (opening source) unread n rest = (rest ≡ content_of source) × (n ≡ 0) × (unread ≡ size)
Stands size (reading reads none) unread n rest = (rest ≡ content reads) × (n ≡ 0) × (unread ≡ size)
Stands size (reading reads (some held)) unread n rest =
    (rest ≡ held ++ content reads) × (0 < length held) × (n + length held + unread ≡ size)
Stands size (delivering held bytes reads) unread n rest =
    (rest ≡ held ++ content (got bytes ∷ reads))
    × (0 < length held)
    × (n + length held + length bytes + unread ≡ size)
Stands size (returned finished) unread n rest = (rest ≡ []) × (n ≡ size)
Stands size (returned r) unread n rest = (n < size) ⊎ ((size ≡ 0) × (n ≡ 0))

-- No byte is lost, doubled or moved, and the counters of the body are right.
abbrev pub Carries : ℕ → Text → Pipe → Text → Type 0
Carries size whole p rest =
    (through p ++ rest ≡ whole)
    × (p.body.unsent + length p.framed ≡ size)
    × (p.body.sent ≡ length p.framed)

abbrev pub Flows : ℕ → Text → Pipe → Type 0
Flows size whole p =
    (rest : Text) × Carries size whole p rest
    × Stands size p.stage p.unread (length (through p)) rest
