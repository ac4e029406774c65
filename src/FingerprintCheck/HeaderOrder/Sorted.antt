-- ===== src/FingerprintCheck/HeaderOrder/Sorted.antt =====
-- examples/fingerprint_check.rs: places that are as they are once sorted.
use grindr_rs.Prelude.{
  ℕ, ◌≤◌, true, List, [], ◌∷◌, Text, leb, ◌≡◌, ◌↔◌, refl, sym, subst, arith, inl, inr, Bool-cases,
}
use package.grindr_rs.Texts.{insert, sort}
use package.grindr_rs.FingerprintCheck.HeaderOrder.{nats_eq, check_positions}

-- A list of numbers that ascends from `lower` on.
abbrev pub Ascends : ℕ → List ℕ → Type 0
Ascends lower [] = Unit
Ascends lower (i ∷ is) = (lower ≤ i) × Ascends i is

insert-Ascends :
    (lower x : ℕ) (ys : List ℕ) → lower ≤ x → Ascends lower ys → Ascends lower (insert leb x ys)
unfolding insert
insert-Ascends lower x [] le h = (le, tt)
insert-Ascends lower x (y ∷ ys) le (ly, h) = elim (Bool-cases (leb x y)) [
  | inl small ↦ rw small (le, (ground arith, h))
  | inr big ↦ rw big (ly, insert-Ascends y x ys (ground arith) h)
]

sort-Ascends : (xs : List ℕ) → Ascends 0 (sort leb xs)
unfolding sort
sort-Ascends [] = tt
sort-Ascends (x ∷ xs) = insert-Ascends 0 x (sort leb xs) (omega arith) (sort-Ascends xs)

sorted_same : (lower : ℕ) (xs : List ℕ) → Ascends lower xs → sort leb xs ≡ xs
unfolding sort insert
sorted_same lower [] h = refl
sorted_same lower (x ∷ []) h = refl
sorted_same lower (x ∷ y ∷ ys) (lx, (xy, h)) =
    rw (sorted_same x (y ∷ ys) (xy, h)) (let le : leb x y ≡ true = ground arith in rw le refl)

eq_of_nats_eq : (xs ys : List ℕ) → nats_eq xs ys ≡ true → xs ≡ ys
unfolding nats_eq
eq_of_nats_eq [] [] e = refl
eq_of_nats_eq [] (y ∷ ys) e = ground arith
eq_of_nats_eq (x ∷ xs) [] e = ground arith
eq_of_nats_eq (x ∷ xs) (y ∷ ys) e = ground (arith, eq_of_nats_eq xs ys)

nats_eq_refl : (xs : List ℕ) → nats_eq xs xs ≡ true
unfolding nats_eq
nats_eq_refl [] = refl
nats_eq_refl (x ∷ xs) = ground (arith, nats_eq_refl xs)

-- Positions in order are what is left once they are sorted.
pub check_positions_iff :
    (names : List Text) (positions : List ℕ)
    → (check_positions names positions ≡ []) ↔ Ascends 0 positions
unfolding check_positions
check_positions_iff names positions = (
  λ e. elim (Bool-cases (nats_eq positions (sort leb positions))) [
    | inl same ↦
        subst (Ascends 0) (sym (eq_of_nats_eq positions (sort leb positions) same))
          (sort-Ascends positions)
    | inr differ ↦ absurd (ground arith)
  ],
  λ h. rw (sorted_same 0 positions h, nats_eq_refl positions) refl,
)
