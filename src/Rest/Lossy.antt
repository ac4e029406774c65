-- ===== src/Rest/Lossy.antt =====
-- `String::from_utf8_lossy`, which src/rest.rs applies to each error body: a decoder that reads a
-- byte at a time and writes U+FFFD for each maximal ill-formed part.
use grindr_rs.Prelude.{ℕ, zero, suc, Bool, ◌&&◌, [], ◌∷◌, ◌++◌, Text, if◌then◌else◌, ltb, leb, ◌==◌}

-- `inside lo hi left seen`: the next byte lies in `lo..=hi`, and `left` more follow it.
pub data Decoder : Type 0 where
  start : Decoder
  inside : ℕ → ℕ → ℕ → Text → Decoder

abbrev pub replacement : Text
replacement = 0xEF ∷ 0xBF ∷ 0xBD ∷ []

abbrev between : ℕ → ℕ → ℕ → Bool
between lo hi b = leb lo b && leb b hi

-- What a first byte writes, and the state after it.
pub first_byte : ℕ → Text × Decoder
first_byte b =
    if ltb b 0x80
    then (b ∷ [], start)
    else if between 0xC2 0xDF b
    then ([], inside 0x80 0xBF 0 (b ∷ []))
    else if b == 0xE0
    then ([], inside 0xA0 0xBF 1 (b ∷ []))
    else if b == 0xED
    then ([], inside 0x80 0x9F 1 (b ∷ []))
    else if between 0xE1 0xEF b
    then ([], inside 0x80 0xBF 1 (b ∷ []))
    else if b == 0xF0
    then ([], inside 0x90 0xBF 2 (b ∷ []))
    else if between 0xF1 0xF3 b
    then ([], inside 0x80 0xBF 2 (b ∷ []))
    else if b == 0xF4
    then ([], inside 0x80 0x8F 2 (b ∷ []))
    else (replacement, start)

more_bytes : ℕ → Text → Text × Decoder
more_bytes zero seen = (seen, start)
more_bytes (suc left) seen = ([], inside 0x80 0xBF left seen)

pub decode_byte : Decoder → ℕ → Text × Decoder
unfolding first_byte more_bytes
decode_byte start b = first_byte b
decode_byte (inside lo hi left seen) b =
    if between lo hi b
    then more_bytes left (seen ++ b ∷ [])
    else (replacement ++ (first_byte b).0, (first_byte b).1)

-- A character that is cut off by the end of the input is ill-formed too.
decode_end : Decoder → Text
decode_end start = []
decode_end (inside lo hi left seen) = replacement

pub lossy_from : Decoder → Text → Text
unfolding decode_byte decode_end
lossy_from d [] = decode_end d
lossy_from d (b ∷ s) = (decode_byte d b).0 ++ lossy_from (decode_byte d b).1 s

unfoldable pub from_utf8_lossy : Text → Text
unfolding lossy_from
from_utf8_lossy s = lossy_from start s
