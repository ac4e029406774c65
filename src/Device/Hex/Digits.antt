-- ===== src/Device/Hex/Digits.antt =====
-- src/device.rs: the digits of a device id.
use grindr_rs.Prelude.{
  ℕ, zero, suc, ◌+◌, ◌*◌, ◌-◌, ◌/◌, ◌%◌, ◌<◌, [], ◌∷◌, Text, length, ◌≡◌, refl, arith, ltb,
  if◌then◌else◌,
}
use package.grindr_rs.Device.Hex.{hex_digit, hex_digits, hex_16}

-- The value of a hexadecimal digit, and of a text of them.
abbrev pub digit_value : ℕ → ℕ
digit_value c = if ltb c 58 then c - 48 else c - 87

abbrev pub value_from : ℕ → Text → ℕ
value_from acc [] = acc
value_from acc (c ∷ cs) = value_from (acc * 16 + digit_value c) cs

digit_value-hex_digit : (d : ℕ) → d < 16 → digit_value (hex_digit d) ≡ d
unfolding hex_digit
digit_value-hex_digit d h = ground arith

length-hex_digits : (n x : ℕ) (acc : Text) → length (hex_digits n x acc) ≡ n + length acc
unfolding hex_digits
length-hex_digits zero x acc = omega arith
length-hex_digits (suc n) x acc =
    omega (arith, length-hex_digits n (x / 16) (hex_digit (x % 16) ∷ acc))

abbrev power_16 : ℕ → ℕ
power_16 zero = 1
power_16 (suc n) = 16 * power_16 n

value-hex_digits :
    (n x : ℕ) (acc : Text) → x < power_16 n → value_from 0 (hex_digits n x acc) ≡ value_from x acc
unfolding hex_digits
value-hex_digits zero x acc h = let e : x ≡ 0 = omega arith in rw e refl
value-hex_digits (suc n) x acc h =
    let d = digit_value-hex_digit (x % 16) (omega arith) in
    let whole : x / 16 * 16 + x % 16 ≡ x = omega arith in
    rw (value-hex_digits n (x / 16) (hex_digit (x % 16) ∷ acc) (omega arith), d, whole) refl

-- The device id of a 64-bit number has sixteen digits, and reading them gives the number back.
pub hex_16-reads_back :
    (x : ℕ)
    → x < 18_446_744_073_709_551_616
    → (length (hex_16 x) ≡ 16) × (value_from 0 (hex_16 x) ≡ x)
unfolding hex_16
hex_16-reads_back x h = (length-hex_digits 16 x [], value-hex_digits 16 x [] h)
