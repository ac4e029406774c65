-- ===== src/FingerprintCheck/Ja4.antt =====
-- examples/fingerprint_check.rs: the JA4 fingerprint, computed again from its raw form.
pub mod Order
pub mod Padding
pub mod Pieces
use grindr_rs.Prelude.{
  ℕ, ◌+◌, ◌/◌, ◌%◌, List, [], ◌∷◌, ◌++◌, Text, text_eq, codes, take, any, if◌then◌else◌, ltb,
}
use package.grindr_rs.Texts.{split, join, text_le, sort}

abbrev pub underscore : ℕ
underscore = 95

abbrev pub comma : ℕ
comma = 44

abbrev pub padding : Text
padding = codes "0015"

hex_digit : ℕ → ℕ
hex_digit d = if ltb d 10 then d + 48 else d + 87

-- `format!("{b:02x}")` of each byte.
unfoldable pub hex_encode : Text → Text
unfolding hex_digit
hex_encode [] = []
hex_encode (b ∷ bytes) = hex_digit (b / 16) ∷ hex_digit (b % 16) ∷ hex_encode bytes

-- The list of extensions with the padding that the service leaves out.
unfoldable pub fix_extensions : List Text → List Text
unfolding text_eq sort text_le
fix_extensions exts =
    if any (text_eq padding) exts then exts else sort text_le (exts ++ (padding ∷ []))

module _ (sha256 : Text → Text) where
  unfoldable pub sha256_truncated : Text → Text
  unfolding hex_encode
  sha256_truncated s = hex_encode (take 6 (sha256 s))

  unfoldable pub ja4_of_parts : Text → List Text → Text
  unfolding sha256_truncated fix_extensions split join codes
  ja4_of_parts ja4_r (a_part ∷ ciphers ∷ exts_str ∷ sigalgs ∷ []) =
      let exts_fixed = join (fix_extensions (split exts_str comma)) (codes ",") in
      let ja4_b = sha256_truncated ciphers in
      let ja4_c = sha256_truncated (exts_fixed ++ (codes "_" ++ sigalgs)) in
      a_part ++ (codes "_" ++ (ja4_b ++ (codes "_" ++ ja4_c)))
  ja4_of_parts ja4_r parts = ja4_r

  unfoldable pub recompute_ja4_spec : Text → Text
  unfolding ja4_of_parts split
  recompute_ja4_spec ja4_r = ja4_of_parts ja4_r (split ja4_r underscore)
