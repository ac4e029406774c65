-- ===== src/Rest/Summary/Bounds.antt =====
-- src/rest.rs: where the summary of an error body is cut.
use grindr_rs.Prelude.{
  ℕ, zero, suc, ◌≤◌, ◌<◌, true, false, ◌++◌, Text, codes, length, take, length-append, length-take,
  ◌≡◌, refl, ◌⊎◌, inl, inr, arith, leb, Bool-cases,
}
use native.Mathlib.Decide.{dec_le}
use package.grindr_rs.Rest.Summary.{max_error_body, is_char_boundary, floor_boundary, truncate}

zero_boundary : (text : Text) → is_char_boundary text 0 ≡ true
unfolding is_char_boundary
zero_boundary text = refl

cut_length : (text : Text) (end : ℕ) → end ≤ 256 → length (take end text ++ codes "...") ≤ 259
unfolding codes
cut_length text end h =
    omega (arith, length-append (take end text) (codes "..."), length-take end text)

no_boundary :
    (text : Text) (top i end : ℕ)
    → is_char_boundary text (suc top) ≡ false
    → ((j : ℕ) → end < j → j ≤ top → is_char_boundary text j ≡ false)
    → end < i
    → i ≤ suc top
    → is_char_boundary text i ≡ false
no_boundary text top i end last earlier above below = elim (dec_le i top) [
  | yes le ↦ earlier i above le
  | no gt ↦ let e : i ≡ suc top = omega arith in rw e last
]

-- The loop stops at the greatest character boundary at or below its start.
pub record IsFloor (text : Text) (top end : ℕ) : Type 0 where
  pub below : end ≤ top
  pub boundary : is_char_boundary text end ≡ true
  pub greatest : (i : ℕ) → end < i → i ≤ top → is_char_boundary text i ≡ false

pub floor_boundary-IsFloor : (text : Text) (top : ℕ) → IsFloor text top (floor_boundary text top)
unfolding floor_boundary
floor_boundary-IsFloor text zero = record {
  below = omega arith;
  boundary = zero_boundary text;
  greatest = λ i above below. absurd (omega arith);
}
floor_boundary-IsFloor text (suc top) = elim (Bool-cases (is_char_boundary text (suc top))) [
  | inl here ↦ rw here (record {
    below = omega arith;
    boundary = here;
    greatest = λ i above below. absurd (omega arith);
  })
  | inr not_here ↦ rw not_here (
      let rest = floor_boundary-IsFloor text top in
      record {
        below = omega (arith, rest.below);
        boundary = rest.boundary;
        greatest = λ i above below. no_boundary text top i _ not_here rest.greatest above below;
      })
]

-- A short text is kept; a long one is cut at the greatest character boundary at or below 256.
pub truncate_cut :
    (text : Text)
    → ((length text ≤ max_error_body) × (truncate text ≡ text))
      ⊎ ((end : ℕ) × (max_error_body < length text)
          × IsFloor text max_error_body end
          × (truncate text ≡ take end text ++ codes "..."))
unfolding truncate
truncate_cut text = elim (Bool-cases (leb (length text) max_error_body)) [
  | inl short ↦ inl (ground arith, ground arith)
  | inr long ↦ inr (
    floor_boundary text max_error_body,
    ground arith,
    floor_boundary-IsFloor text max_error_body,
    ground arith,
  )
]

-- No summary of a text is longer than 256 bytes and an ellipsis.
pub length-truncate : (text : Text) → length (truncate text) ≤ 259
length-truncate text = elim (truncate_cut text) [
  | inl (short, e) ↦ rw e (omega arith)
  | inr (end, long, floor, e) ↦ rw e (cut_length text end floor.below)
]
