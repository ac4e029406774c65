-- ===== src/Rest/Search.antt =====
-- The operations on `str` that src/rest.rs uses: characters, trimming, and its own
-- case-insensitive search.
pub mod First
use grindr_rs.Prelude.{
  ℕ, suc, ◌+◌, Bool, true, false, ◌&&◌, ◌||◌, Option, none, some, List, [], ◌∷◌, ◌++◌, Text,
  text_eq, map_option, any, if◌then◌else◌, leb, ltb, ◌==◌,
}
use mathlib.Core.List.{reverse}

-- A continuation byte of UTF-8.
abbrev pub is_continuation : ℕ → Bool
is_continuation b = leb 0x80 b && ltb b 0xC0

starts_inside : Text → Bool
starts_inside [] = false
starts_inside (b ∷ g) = is_continuation b

attach : ℕ → List Text → List Text
attach b [] = (b ∷ []) ∷ []
attach b (g ∷ gs) = if starts_inside g then (b ∷ g) ∷ gs else (b ∷ []) ∷ g ∷ gs

-- `str::chars`, each character as its bytes.
unfoldable pub chars : Text → List Text
unfolding attach starts_inside
chars [] = []
chars (b ∷ s) = attach b (chars s)

unfoldable pub concat : List Text → Text
concat [] = []
concat (g ∷ gs) = g ++ concat gs

-- `char::is_whitespace`: the property White_Space of Unicode.
abbrev white_space : List Text
white_space =
    (0x09 ∷ [])
    ∷ (0x0A ∷ [])
    ∷ (0x0B ∷ [])
    ∷ (0x0C ∷ [])
    ∷ (0x0D ∷ [])
    ∷ (0x20 ∷ [])
    ∷ (0xC2 ∷ 0x85 ∷ [])
    ∷ (0xC2 ∷ 0xA0 ∷ [])
    ∷ (0xE1 ∷ 0x9A ∷ 0x80 ∷ [])
    ∷ (0xE2 ∷ 0x80 ∷ 0x80 ∷ [])
    ∷ (0xE2 ∷ 0x80 ∷ 0x81 ∷ [])
    ∷ (0xE2 ∷ 0x80 ∷ 0x82 ∷ [])
    ∷ (0xE2 ∷ 0x80 ∷ 0x83 ∷ [])
    ∷ (0xE2 ∷ 0x80 ∷ 0x84 ∷ [])
    ∷ (0xE2 ∷ 0x80 ∷ 0x85 ∷ [])
    ∷ (0xE2 ∷ 0x80 ∷ 0x86 ∷ [])
    ∷ (0xE2 ∷ 0x80 ∷ 0x87 ∷ [])
    ∷ (0xE2 ∷ 0x80 ∷ 0x88 ∷ [])
    ∷ (0xE2 ∷ 0x80 ∷ 0x89 ∷ [])
    ∷ (0xE2 ∷ 0x80 ∷ 0x8A ∷ [])
    ∷ (0xE2 ∷ 0x80 ∷ 0xA8 ∷ [])
    ∷ (0xE2 ∷ 0x80 ∷ 0xA9 ∷ [])
    ∷ (0xE2 ∷ 0x80 ∷ 0xAF ∷ [])
    ∷ (0xE2 ∷ 0x81 ∷ 0x9F ∷ [])
    ∷ (0xE3 ∷ 0x80 ∷ 0x80 ∷ [])
    ∷ []

is_white : Text → Bool
unfolding text_eq
is_white c = any (text_eq c) white_space

module _ {ℓ} {A : Type ℓ} (p : A → Bool) where
  pub drop_while : List A → List A
  drop_while [] = []
  drop_while (x ∷ xs) = if p x then drop_while xs else x ∷ xs

  pub trim_by : List A → List A
  unfolding drop_while
  trim_by xs = reverse (drop_while (reverse (drop_while xs)))

-- `str::trim`.
unfoldable pub trim : Text → Text
unfolding concat trim_by is_white chars
trim s = concat (trim_by is_white (chars s))

is_ascii_whitespace : ℕ → Bool
is_ascii_whitespace b = b == 0x09 || b == 0x0A || b == 0x0C || b == 0x0D || b == 0x20

-- `[u8]::trim_ascii`.
unfoldable pub trim_ascii : Text → Text
unfolding trim_by is_ascii_whitespace
trim_ascii s = trim_by is_ascii_whitespace s

abbrev pub to_lower : ℕ → ℕ
to_lower b = if leb 0x41 b && leb b 0x5A then b + 32 else b

-- `eq_ignore_ascii_case` of a needle with as many bytes of the haystack.
pub prefix_ignore_case : Text → Text → Bool
prefix_ignore_case [] s = true
prefix_ignore_case (n ∷ ns) [] = false
prefix_ignore_case (n ∷ ns) (b ∷ s) = to_lower n == to_lower b && prefix_ignore_case ns s

-- `find_ignore_ascii_case`, for a needle that is not empty: the first window that is equal.
unfoldable pub find_ignore_ascii_case : Text → Text → Option ℕ
unfolding prefix_ignore_case
find_ignore_ascii_case [] needle = none
find_ignore_ascii_case (b ∷ s) needle =
    if prefix_ignore_case needle (b ∷ s)
    then some 0
    else map_option suc (find_ignore_ascii_case s needle)

-- `str::find` of an ASCII character.
unfoldable pub find_byte : Text → ℕ → Option ℕ
find_byte [] c = none
find_byte (b ∷ s) c = if b == c then some 0 else map_option suc (find_byte s c)
