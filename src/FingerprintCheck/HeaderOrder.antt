-- ===== src/FingerprintCheck/HeaderOrder.antt =====
-- examples/fingerprint_check.rs `check_grindr_header_order`.
pub mod Built
pub mod InOrder
pub mod Places
pub mod Sorted
use grindr_rs.Prelude.{
  ℕ, Bool, true, false, ◌&&◌, Option, none, some, List, [], ◌∷◌, ◌++◌, Text, text_eq, codes, map,
  and_then, is_none, get_or, if◌then◌else◌, leb, ◌==◌,
}
use package.grindr_rs.Texts.{join, text_le, sort, position, filter_map}
use package.grindr_rs.FingerprintCheck.Expected.{expected_grindr_headers}
use package.grindr_rs.FingerprintCheck.Checks.{
  ProbeLib, Mismatch, comma_space, arrow, field, first_headers, names_of,
}

-- The `BTreeMap` from a name to its first place, in the order of its keys.
abbrev pub Indices : Type 0
Indices = List (Text × Option ℕ)

unfoldable pub insert_index : Text → Option ℕ → Indices → Indices
unfolding text_eq text_le
insert_index k v [] = (k, v) ∷ []
insert_index k v ((j, w) ∷ m) =
    let rest = insert_index k v m in
    if text_eq k j then (k, v) ∷ m else if text_le k j then (k, v) ∷ (j, w) ∷ m else (j, w) ∷ rest

unfoldable pub get_index : Text → Indices → Option (Option ℕ)
unfolding text_eq
get_index k [] = none
get_index k ((j, w) ∷ m) = if text_eq k j then some w else get_index k m

unfoldable pub insert_all : (Text → Option ℕ) → List Text → Indices → Indices
unfolding insert_index
insert_all place [] m = m
insert_all place (name ∷ names) m = insert_all place names (insert_index name (place name) m)

abbrev pub without_place : Text × Option ℕ → Option Text
without_place (k, v) = if is_none v then some k else none

unfoldable pub missing_in : Indices → List Text
unfolding filter_map
missing_in m = filter_map without_place m

unfoldable pub positions_in : Indices → List Text → List ℕ
unfolding filter_map get_index
positions_in m names = filter_map (λ n. and_then (get_index n m) (λ v. v)) names

unfoldable pub nats_eq : List ℕ → List ℕ → Bool
nats_eq [] [] = true
nats_eq [] (b ∷ bs) = false
nats_eq (a ∷ as') [] = false
nats_eq (a ∷ as') (b ∷ bs) = a == b && nats_eq as' bs

unfoldable pub check_positions : List Text → List ℕ → List Mismatch
unfolding codes join sort nats_eq
check_positions actual_names positions =
    if nats_eq positions (sort leb positions)
    then []
    else record {
      name = codes "grindr_headers.order";
      expected = join expected_grindr_headers arrow;
      actual = join (map (λ i. get_or actual_names i []) positions) arrow;
    }
      ∷ []

unfoldable pub check_missing : List Text → Indices → List Text → List Mismatch
unfolding codes join check_positions positions_in
check_missing actual_names indices [] =
    check_positions actual_names (positions_in indices expected_grindr_headers)
check_missing actual_names indices (name ∷ names) =
    record {
      name = codes "grindr_headers.missing";
      expected = join expected_grindr_headers comma_space;
      actual = codes "missing: " ++ join (name ∷ names) comma_space;
    }
    ∷ []

unfoldable pub place_in : List Text → Text → Option ℕ
unfolding position text_eq
place_in actual_names name = position (λ n. text_eq n name) actual_names

unfoldable pub check_names : List Text → List Mismatch
unfolding insert_all check_missing missing_in place_in codes
check_names actual_names =
    let indices = insert_all (place_in actual_names) expected_grindr_headers [] in
    check_missing actual_names indices (missing_in indices)

module _ (lib : ProbeLib) where
  abbrev pub or_option : {A : Type 0} → Option A → Option A → Option A
  or_option none o = o
  or_option (some a) o = some a

  unfoldable pub names_or_none : Option (List lib.Value) → List Text
  unfolding names_of
  names_or_none none = []
  names_or_none (some h) = names_of lib h

  unfoldable pub check_grindr_header_order : lib.Value → List Mismatch
  unfolding codes names_or_none check_names first_headers
  check_grindr_header_order r =
      let h1_headers = lib.as_array (field lib r (codes "http1") (codes "headers")) in
      check_names (names_or_none (or_option (first_headers lib r) h1_headers))
