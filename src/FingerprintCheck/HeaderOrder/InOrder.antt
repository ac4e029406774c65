-- ===== src/FingerprintCheck/HeaderOrder/InOrder.antt =====
-- examples/fingerprint_check.rs: when the headers of the client are in order.
use grindr_rs.Prelude.{
  ℕ, zero, suc, ◌≤◌, some, List, [], ◌∷◌, Text, text_eq, eq_of_text_eq, text_eq_iff, ◌≡◌, ◌≢◌, ◌↔◌,
  refl, sym, ◌∙◌, subst, arith, inl, inr, Bool-cases, Option-cases,
}
use mathlib.Core.Bool.{false≢true}
use package.grindr_rs.Texts.{position, filter_map}
use package.grindr_rs.FingerprintCheck.Expected.{expected_grindr_headers}
use package.grindr_rs.FingerprintCheck.HeaderOrder.{
  Indices, missing_in, positions_in, check_positions, check_missing, place_in, check_names,
}
use package.grindr_rs.FingerprintCheck.HeaderOrder.Sorted.{Ascends, check_positions_iff}
use package.grindr_rs.FingerprintCheck.HeaderOrder.Places.{
  Placed, sorted_indices, filter_map-Placed, Placed-filter_map, insert_all-sorted,
  positions_in-sorted, missing-AllPlaced, AllPlaced-missing,
}

-- The first of some names that is the given one.
abbrev pub IsFirst : Text → List Text → ℕ → Type 0
IsFirst name [] i = ⊥
IsFirst name (n ∷ ns) zero = n ≡ name
IsFirst name (n ∷ ns) (suc i) = (n ≢ name) × IsFirst name ns i

-- Each of the headers stands in the names, and the first places ascend from `lower` on.
abbrev pub Rises : ℕ → List Text → List Text → Type 0
Rises lower names [] = Unit
Rises lower names (h ∷ hs) = (i : ℕ) × IsFirst h names i × (lower ≤ i) × Rises i names hs

pub place-IsFirst :
    (name : Text) (names : List Text) (i : ℕ) → place_in names name ≡ some i → IsFirst name names i
unfolding place_in position
place-IsFirst name [] i e = ground arith
place-IsFirst name (n ∷ ns) i e = elim (Bool-cases (text_eq n name)) [
  | inl here ↦
      let zero_place : 0 ≡ i = ground arith in
      subst (IsFirst name (n ∷ ns)) zero_place (eq_of_text_eq n name here)
  | inr later ↦ elim (Option-cases (place_in ns name)) [
    | inl nowhere ↦ absurd (ground arith)
    | inr (j, found) ↦
        let next_place : suc j ≡ i = ground arith in
        subst (IsFirst name (n ∷ ns)) next_place
          (λ q. false≢true (sym later ∙ (text_eq_iff n name).1 q), place-IsFirst name ns j found)
  ]
]

IsFirst-place :
    (name : Text) (names : List Text) (i : ℕ) → IsFirst name names i → place_in names name ≡ some i
unfolding place_in position
IsFirst-place name [] i h = elim h [ ]
IsFirst-place name (n ∷ ns) zero e = rw ((text_eq_iff n name).1 e) refl
IsFirst-place name (n ∷ ns) (suc i) (ne, h) = elim (Bool-cases (text_eq n name)) [
  | inl here ↦ absurd (ne (eq_of_text_eq n name here))
  | inr later ↦ rw (later, IsFirst-place name ns i h) refl
]

Rises-Placed :
    (lower : ℕ) (names hs : List Text) (is : List ℕ)
    → Placed (place_in names) hs is
    → Ascends lower is
    → Rises lower names hs
Rises-Placed lower names [] [] h a = tt
Rises-Placed lower names [] (i ∷ is) h a = elim h [ ]
Rises-Placed lower names (n ∷ ns) [] h a = elim h [ ]
Rises-Placed lower names (n ∷ ns) (i ∷ is) (e, h) (le, a) =
    (i, place-IsFirst n names i e, le, Rises-Placed i names ns is h a)

Placed-Rises :
    (lower : ℕ) (names hs : List Text)
    → Rises lower names hs
    → (is : List ℕ) × Placed (place_in names) hs is × Ascends lower is
Placed-Rises lower names [] h = ([], tt, tt)
Placed-Rises lower names (n ∷ ns) (i, first, le, h) =
    let (is, placed, ascends) = Placed-Rises i names ns h in
    (i ∷ is, (IsFirst-place n names i first, placed), (le, ascends))

check_missing-nil :
    (names : List Text) (m : Indices) (missing : List Text)
    → check_missing names m missing ≡ []
    → (missing ≡ []) × (check_positions names (positions_in m expected_grindr_headers) ≡ [])
unfolding check_missing
check_missing-nil names m [] e = (refl, e)
check_missing-nil names m (k ∷ ks) e = ground arith

check_names_finds :
    (names : List Text) → check_names names ≡ [] → Rises 0 names expected_grindr_headers
unfolding check_names
check_names_finds names e =
    let place = place_in names in
    let m = sorted_indices place in
    let at_sorted : check_missing names m (missing_in m) ≡ [] =
      subst (λ m. check_missing names m (missing_in m) ≡ []) (insert_all-sorted place) e in
    let (none_missing, in_order) = check_missing-nil names m (missing_in m) at_sorted in
    let placed =
      filter_map-Placed place expected_grindr_headers (missing-AllPlaced place none_missing) in
    let ascends =
      subst (Ascends 0) (positions_in-sorted place)
        ((check_positions_iff names (positions_in m expected_grindr_headers)).0 in_order) in
    Rises-Placed 0 names expected_grindr_headers (filter_map place expected_grindr_headers) placed
      ascends

check_names_passes :
    (names : List Text) → Rises 0 names expected_grindr_headers → check_names names ≡ []
unfolding check_names check_missing
check_names_passes names h =
    let place = place_in names in
    let m = sorted_indices place in
    let (is, placed, ascends) = Placed-Rises 0 names expected_grindr_headers h in
    let (all_placed, same) = Placed-filter_map place expected_grindr_headers is placed in
    let in_order : check_positions names (positions_in m expected_grindr_headers) ≡ [] =
      (check_positions_iff names _).1
        (subst (Ascends 0) (sym (positions_in-sorted place ∙ same)) ascends) in
    let at_sorted : check_missing names m (missing_in m) ≡ [] =
      rw (AllPlaced-missing place all_placed) in_order in
    subst (λ m. check_missing names m (missing_in m) ≡ []) (sym (insert_all-sorted place)) at_sorted

-- The check of the header names finds nothing exactly if each of the headers of the client stands in the
-- names, and their first places ascend in the expected order.
pub check_names-Rises :
    (names : List Text) → (check_names names ≡ []) ↔ Rises 0 names expected_grindr_headers
check_names-Rises names = (check_names_finds names, check_names_passes names)
