-- ===== src/Stream/Pump.antt =====
-- src/stream/body.rs `Pump`: the task that reads the source and hands its chunks on.
pub mod Delivers
use grindr_rs.Prelude.{
  ℕ, zero, suc, ◌+◌, ◌-◌, Bool, true, false, Option, none, some, List, [], ◌∷◌, ◌++◌, Text, codes,
  length, ltb, if◌then◌else◌, ◌==◌,
}

-- What one `read` of the source gives: some bytes, none at its end, or an error. After the last
-- read of a list the source is at its end.
pub data Read : Type 0 where
  got : Text → Read
  interrupted : Read
  broken : Text → Read

abbrev pub source_ended_early : Text
source_ended_early = codes "the body source ended early"

abbrev pub source_ran_long : Text
source_ran_long = codes "the body source is longer than its size"

-- How `forward` returns: `Ok` with the whole source handed on, `Ok` since a chunk was not taken, or
-- an error.
pub data Returned : Type 0 where
  finished : Returned
  abandoned : Returned
  failed : Text → Returned

-- The return, and the chunks that were delivered, the newest first.
abbrev pub Pumped : Type 0
Pumped = Returned × List Text

-- `held.take().is_none_or(|held| self.deliver(held))`; `takes n` says whether the delivery after `n`
-- others is taken.
abbrev pub hand_on : (ℕ → Bool) → Option Text → List Text → Bool × List Text
hand_on takes none delivered = (true, delivered)
hand_on takes (some held) delivered =
    if takes (length delivered) then (true, held ∷ delivered) else (false, delivered)

-- The end of the source: an empty chunk.
unfoldable pub at_end : (ℕ → Bool) → ℕ → Option Text → List Text → Pumped
at_end takes unread held delivered =
    let (taken, now) = hand_on takes held delivered in
    if taken
    then (if unread == 0 then finished else failed source_ended_early, now)
    else (abandoned, now)

-- The loop of `forward`, with `read_chunk` in it.
unfoldable pub forward_from : (ℕ → Bool) → List Read → ℕ → Option Text → List Text → Pumped
unfolding at_end
forward_from takes [] unread held delivered = at_end takes unread held delivered
forward_from takes (interrupted ∷ reads) unread held delivered =
    forward_from takes reads unread held delivered
forward_from takes (broken error ∷ reads) unread held delivered = (failed error, delivered)
forward_from takes (got [] ∷ reads) unread held delivered = at_end takes unread held delivered
forward_from takes (got (b ∷ bs) ∷ reads) unread held delivered =
    let (taken, now) = hand_on takes held delivered in
    let rest = forward_from takes reads (unread - length (b ∷ bs)) (some (b ∷ bs)) now in
    if ltb unread (length (b ∷ bs))
    then (failed source_ran_long, delivered)
    else if taken
    then rest
    else (abandoned, now)

-- `forward`, once the source is open.
unfoldable pub forward : (ℕ → Bool) → List Read → ℕ → Pumped
unfolding forward_from
forward takes reads size = forward_from takes reads size none []
