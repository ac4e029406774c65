-- ===== src/Device/Hex.antt =====
-- The format `{:016x}` of a 64-bit number, which src/device.rs uses for a device id.
pub mod Digits
use grindr_rs.Prelude.{ℕ, zero, suc, ◌+◌, ◌/◌, ◌%◌, [], ◌∷◌, Text, ltb, if◌then◌else◌}

hex_digit : ℕ → ℕ
hex_digit d = if ltb d 10 then d + 48 else d + 87

-- The low `n` hexadecimal digits of a number, the highest first.
hex_digits : ℕ → ℕ → Text → Text
unfolding hex_digit
hex_digits zero x acc = acc
hex_digits (suc n) x acc = hex_digits n (x / 16) (hex_digit (x % 16) ∷ acc)

unfoldable pub hex_16 : ℕ → Text
unfolding hex_digits
hex_16 x = hex_digits 16 x []
