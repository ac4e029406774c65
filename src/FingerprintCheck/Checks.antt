-- ===== src/FingerprintCheck/Checks.antt =====
-- examples/fingerprint_check.rs: what the answer of the probe server is compared with. A check gives the
-- mismatches that it pushes.
use grindr_rs.Prelude.{
  Bool, true, false, Option, none, some, List, [], ◌∷◌, ◌++◌, Text, text_eq, codes, map,
  starts_with, and_then, unwrap_or, is_some_and, take, length, if◌then◌else◌,
}
use grindr_rs.Rest.Search.{trim}
use package.grindr_rs.Texts.{
  before, find, join, strip_prefix, find_first, take_while, filter_map, texts_eq,
}
use package.grindr_rs.FingerprintCheck.Expected.{
  Mode, Phase, cold_ja3_hash, cold_ja4_h2, cold_ja4_h1, warm_ja3_hash, warm_ja4_h2, warm_ja4_h1,
  expected_akamai_h2, expected_pseudo_order, expected_tls_extensions_cold,
  expected_tls_extensions_warm,
}
use package.grindr_rs.FingerprintCheck.Ja4.{recompute_ja4_spec}

-- What the program calls of serde_json and of a digest; `index` is `value["key"]`, which gives `Null` on a
-- missing key. The lower case of a text rests on tables of Unicode.
pub record ProbeLib : Type 1 where
  pub Value : Type 0
  pub index : Value → Text → Value
  pub get : Value → Text → Option Value
  pub as_str : Value → Option Text
  pub as_array : Value → Option (List Value)
  pub sha256 : Text → Text
  pub to_lowercase : Text → Text

pub record Mismatch : Type 0 where
  pub name : Text
  pub expected : Text
  pub actual : Text

abbrev pub comma_space : Text
comma_space = codes ", "

-- `" → "`.
abbrev pub arrow : Text
arrow = 32 ∷ 226 ∷ 134 ∷ 146 ∷ 32 ∷ []

-- `if actual != expected { m.push(…) }`.
abbrev pub differing : Text → Text → Text → List Mismatch
differing name expected actual =
    if text_eq actual expected
    then []
    else record { name = name; expected = expected; actual = actual } ∷ []

unfoldable pub expected_tls : Bool → Bool → Text × Text
unfolding codes
expected_tls false false = (cold_ja3_hash, cold_ja4_h2)
expected_tls false true = (warm_ja3_hash, warm_ja4_h2)
expected_tls true false = (cold_ja3_hash, cold_ja4_h1)
expected_tls true true = (warm_ja3_hash, warm_ja4_h1)

module _ (lib : ProbeLib) where
  abbrev pub field : lib.Value → Text → Text → lib.Value
  field r outer inner = lib.index (lib.index r outer) inner

  unfoldable pub check_tls : lib.Value → Mode → Phase → List Mismatch
  unfolding codes expected_tls text_eq recompute_ja4_spec
  check_tls r mode phase =
      let (expected_ja3, expected_ja4) = expected_tls mode.h1 phase.warm in
      let ja3_hash = unwrap_or (lib.as_str (field r (codes "tls") (codes "ja3_hash"))) [] in
      let ja4_r = unwrap_or (lib.as_str (field r (codes "tls") (codes "ja4_r"))) [] in
      differing (codes "tls.ja3_hash") expected_ja3 ja3_hash
      ++ differing (codes "tls.ja4 (recomputed, spec-correct)") expected_ja4
          (recompute_ja4_spec lib.sha256 ja4_r)

  unfoldable pub short_ext_name : Text → Text
  unfolding codes before trim strip_prefix
  short_ext_name s =
      let no_paren = trim (before s (codes " (")) in
      lib.to_lowercase (unwrap_or (strip_prefix no_paren (codes "extension")) no_paren)

  -- The names of the extensions that the server saw.
  unfoldable pub extension_names : Option (List lib.Value) → List Text
  unfolding codes filter_map short_ext_name
  extension_names none = []
  extension_names (some a) =
      map short_ext_name (filter_map (λ v. and_then (lib.get v (codes "name")) lib.as_str) a)

  unfoldable pub check_tls_extensions : lib.Value → Phase → List Mismatch
  unfolding codes texts_eq join extension_names
  check_tls_extensions r phase =
      let actual = extension_names (lib.as_array (field r (codes "tls") (codes "extensions"))) in
      let expected =
        if phase.warm then expected_tls_extensions_warm else expected_tls_extensions_cold in
      if texts_eq actual expected
      then []
      else record {
        name = codes "tls.extensions_order";
        expected = join expected comma_space;
        actual = join actual comma_space;
      }
        ∷ []

  -- `s[..idx].to_lowercase()`, up to the first `": "`.
  unfoldable pub header_name : Text → Text
  unfolding codes find
  header_name s = lib.to_lowercase (take (unwrap_or (find s (codes ": ")) (length s)) s)

  -- The headers of the first frame of headers.
  unfoldable pub first_headers : lib.Value → Option (List lib.Value)
  unfolding codes find_first text_eq
  first_headers r =
      and_then
        (and_then (lib.as_array (field r (codes "http2") (codes "sent_frames"))) (
          find_first λ x.
            is_some_and (lib.as_str (lib.index x (codes "frame_type")))
              (text_eq (codes "HEADERS"))))
        λ x. lib.as_array (lib.index x (codes "headers"))

  unfoldable pub names_of : List lib.Value → List Text
  unfolding filter_map header_name
  names_of headers = map header_name (filter_map lib.as_str headers)

  unfoldable pub check_pseudo : Option (List lib.Value) → List Mismatch
  unfolding codes names_of take_while starts_with texts_eq join
  check_pseudo none = []
  check_pseudo (some headers) =
      let pseudo = take_while (starts_with (codes ":")) (names_of headers) in
      if texts_eq pseudo expected_pseudo_order
      then []
      else record {
        name = codes "http2.pseudo_header_order";
        expected = join expected_pseudo_order comma_space;
        actual = join pseudo comma_space;
      }
        ∷ []

  unfoldable pub check_http2 : lib.Value → List Mismatch
  unfolding codes text_eq first_headers check_pseudo
  check_http2 r =
      let akamai =
        unwrap_or (lib.as_str (field r (codes "http2") (codes "akamai_fingerprint"))) [] in
      differing (codes "http2.akamai_fingerprint") expected_akamai_h2 akamai
      ++ check_pseudo (first_headers r)
