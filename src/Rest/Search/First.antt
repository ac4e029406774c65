-- ===== src/Rest/Search/First.antt =====
-- src/rest.rs `find_ignore_ascii_case`, against a definition by windows.
use grindr_rs.Prelude.{
  inr, inl, Bool-cases, map_option, true, ℕ, zero, suc, ◌<◌, Option, none, some, [], ◌∷◌, Text, map,
  take, drop, length, ◌≡◌, refl, ◌≢◌, arith,
}
use package.grindr_rs.Rest.Search.{to_lower, prefix_ignore_case, find_ignore_ascii_case}

-- The window at an offset is the needle, up to the case of ASCII letters.
abbrev pub MatchesAt : Text → Text → ℕ → Type 0
MatchesAt s needle i = map to_lower (take (length needle) (drop i s)) ≡ map to_lower needle

-- The first offset whose window is equal, or none.
abbrev pub IsFirst : Text → Text → Option ℕ → Type 0
IsFirst s needle none = (i : ℕ) → ¬ MatchesAt s needle i
IsFirst s needle (some i) = MatchesAt s needle i × ((j : ℕ) → j < i → ¬ MatchesAt s needle j)

prefix_found : (needle s : Text) → prefix_ignore_case needle s ≡ true → MatchesAt s needle 0
unfolding prefix_ignore_case
prefix_found [] s h = refl
prefix_found (n ∷ ns) [] h = ground arith
prefix_found (n ∷ ns) (b ∷ s) h = ground (arith, prefix_found ns s)

found_prefix : (needle s : Text) → MatchesAt s needle 0 → prefix_ignore_case needle s ≡ true
unfolding prefix_ignore_case
found_prefix [] s h = refl
found_prefix (n ∷ ns) [] h = ground arith
found_prefix (n ∷ ns) (b ∷ s) h = ground (arith, found_prefix ns s)

module _ (b : ℕ) (s needle : Text) (here : ¬ MatchesAt (b ∷ s) needle 0) where
  later_only :
      (i : ℕ) → ((j : ℕ) → suc j ≡ i → ¬ MatchesAt s needle j) → ¬ MatchesAt (b ∷ s) needle i
  later_only zero h = here
  later_only (suc i) h = h i refl

  IsFirst-suc : (o : Option ℕ) → IsFirst s needle o → IsFirst (b ∷ s) needle (map_option suc o)
  IsFirst-suc none h = λ i. later_only i (λ j e. h j)
  IsFirst-suc (some i) (found, least) = (found, λ j lt. later_only j (λ k e. least k (omega arith)))

empty_window : (n : ℕ) (ns : Text) (i : ℕ) → ¬ MatchesAt [] (n ∷ ns) i
empty_window n ns zero = λ e. ground arith
empty_window n ns (suc i) = λ e. ground arith

-- The search finds the first offset at which the bytes of the haystack are those of the needle, up to
-- the case of ASCII letters, and nothing exactly if there is none; the needle is not empty.
pub find_ignore_ascii_case-IsFirst :
    (s needle : Text) → needle ≢ [] → IsFirst s needle (find_ignore_ascii_case s needle)
unfolding find_ignore_ascii_case
find_ignore_ascii_case-IsFirst [] [] h = absurd (h refl)
find_ignore_ascii_case-IsFirst [] (n ∷ ns) h = empty_window n ns
find_ignore_ascii_case-IsFirst (b ∷ s) needle h =
    elim (Bool-cases (prefix_ignore_case needle (b ∷ s))) [
      | inl hit ↦ rw hit (prefix_found needle (b ∷ s) hit, λ j lt. absurd (omega arith))
      | inr differ ↦ rw differ (
          IsFirst-suc b s needle (λ w. cc (found_prefix needle (b ∷ s) w, differ)) _
            (find_ignore_ascii_case-IsFirst s needle h))
    ]
