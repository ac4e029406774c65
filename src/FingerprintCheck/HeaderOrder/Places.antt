-- ===== src/FingerprintCheck/HeaderOrder/Places.antt =====
-- examples/fingerprint_check.rs: the map from the headers of the client to their first places.
use grindr_rs.Prelude.{
  ℕ, false, Option, none, some, List, [], ◌∷◌, Text, text_eq, codes, is_none, ◌≡◌, refl, ap, arith,
  inl, inr, Option-cases, All,
}
use package.grindr_rs.Texts.{filter_map, text_le}
use package.grindr_rs.FingerprintCheck.Expected.{expected_grindr_headers}
use package.grindr_rs.FingerprintCheck.HeaderOrder.{
  Indices, insert_index, get_index, insert_all, missing_in, positions_in,
}

-- A map in which every name has a place misses none.
missing_none : (m : Indices) → missing_in m ≡ [] → All (λ e. is_none e.1 ≡ false) m
unfolding missing_in filter_map
missing_none [] e = tt
missing_none ((k, none) ∷ m) e = ground arith
missing_none ((k, some i) ∷ m) e = (refl, missing_none m e)

missing_none_back : (m : Indices) → All (λ e. is_none e.1 ≡ false) m → missing_in m ≡ []
unfolding missing_in filter_map
missing_none_back [] h = refl
missing_none_back ((k, none) ∷ m) (e, h) = ground arith
missing_none_back ((k, some i) ∷ m) (e, h) = missing_none_back m h

-- The places of some names, one by one.
abbrev pub Placed : (Text → Option ℕ) → List Text → List ℕ → Type 0
Placed place [] [] = Unit
Placed place [] (i ∷ is) = ⊥
Placed place (h ∷ hs) [] = ⊥
Placed place (h ∷ hs) (i ∷ is) = (place h ≡ some i) × Placed place hs is

abbrev pub AllPlaced : (Text → Option ℕ) → List Text → Type 0
AllPlaced place = All (λ h. is_none (place h) ≡ false)

module _ (place : Text → Option ℕ) where
  pub filter_map-Placed :
      (hs : List Text) → AllPlaced place hs → Placed place hs (filter_map place hs)
  unfolding filter_map
  filter_map-Placed [] h = tt
  filter_map-Placed (n ∷ ns) (e, h) = elim (Option-cases (place n)) [
    | inl nowhere ↦ absurd (ground arith)
    | inr (i, found) ↦ rw found (found, filter_map-Placed ns h)
  ]

  pub Placed-filter_map :
      (hs : List Text) (is : List ℕ)
      → Placed place hs is
      → AllPlaced place hs × (filter_map place hs ≡ is)
  unfolding filter_map
  Placed-filter_map [] [] h = (tt, refl)
  Placed-filter_map [] (i ∷ is) h = elim h [ ]
  Placed-filter_map (n ∷ ns) [] h = elim h [ ]
  Placed-filter_map (n ∷ ns) (i ∷ is) (e, h) =
      let (others, same) = Placed-filter_map ns is h in rw e ((refl, others), ap (λ l. i ∷ l) same)

  -- The map that the loop builds, in the order of its keys.
  abbrev pub sorted_indices : Indices
  sorted_indices =
      (codes "accept", place (codes "accept"))
      ∷ (codes "accept-language", place (codes "accept-language"))
      ∷ (codes "authorization", place (codes "authorization"))
      ∷ (codes "l-device-info", place (codes "l-device-info"))
      ∷ (codes "l-grindr-roles", place (codes "l-grindr-roles"))
      ∷ (codes "l-locale", place (codes "l-locale"))
      ∷ (codes "l-time-zone", place (codes "l-time-zone"))
      ∷ (codes "user-agent", place (codes "user-agent"))
      ∷ []

  pub insert_all-sorted : insert_all place expected_grindr_headers [] ≡ sorted_indices
  unfolding insert_all insert_index text_eq text_le codes
  insert_all-sorted = refl

  pub positions_in-sorted :
      positions_in sorted_indices expected_grindr_headers ≡ filter_map place expected_grindr_headers
  unfolding positions_in get_index text_eq codes filter_map
  positions_in-sorted = refl

  pub missing-AllPlaced : missing_in sorted_indices ≡ [] → AllPlaced place expected_grindr_headers
  missing-AllPlaced e = in_order (missing_none sorted_indices e)
    where
      in_order :
          All (λ e. is_none e.1 ≡ false) sorted_indices → AllPlaced place expected_grindr_headers
      in_order (accept, (language, (auth, (info, (roles, (locale, (zone, (agent, end)))))))) =
          (auth, (zone, (roles, (info, (accept, (agent, (locale, (language, end))))))))

  pub AllPlaced-missing : AllPlaced place expected_grindr_headers → missing_in sorted_indices ≡ []
  AllPlaced-missing (auth, (zone, (roles, (info, (accept, (agent, (locale, (language, end)))))))) =
      missing_none_back sorted_indices
        (accept, (language, (auth, (info, (roles, (locale, (zone, (agent, end))))))))
