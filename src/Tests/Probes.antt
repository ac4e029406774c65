-- ===== src/Tests/Probes.antt =====
-- A probe server whose answers have the expected fingerprint, and a digest that suits them.
use grindr_rs.Prelude.{
  drop, Bool, true, false, Option, none, some, List, [], ◌∷◌, ◌++◌, Text, text_eq, codes, map,
  if◌then◌else◌, ◌≡◌, ◌↔◌, refl, arith, All,
}
use grindr_rs.Error.{ok}
use grindr_rs.Headers.Names.{authorized_headers}
use grindr_rs.Headers.{Header, build_user_agent}
use grindr_rs.FingerprintCheck.Expected.{
  cold_ja3_hash, warm_ja3_hash, expected_akamai_h2, expected_pseudo_order, expected_grindr_headers,
  expected_tls_extensions_cold, expected_tls_extensions_warm,
}
use grindr_rs.FingerprintCheck.Checks.{ProbeLib}
use grindr_rs.FingerprintCheck.HeaderOrder.{check_names}
use grindr_rs.FingerprintCheck.HeaderOrder.Built.{Apart, probe_headers-pass}
use grindr_rs.FingerprintCheck.Run.{Outside, probe_headers, main, chosen_modes}
use grindr_rs.FingerprintCheck.Run.Success.{ModePasses, main-Passes}
use package.grindr_rs.Tests.Setting.{header_lib, device}
use grindr_rs.FingerprintCheck.Ja4.{sha256_truncated, recompute_ja4_spec}
use grindr_rs.FingerprintCheck.Ja4.Padding.{ja4_over, recompute-whole}
use grindr_rs.Texts.{join, text_le}

data Answer : Type 0 where
  root : Bool → Answer
  tls : Bool → Answer
  http2 : Answer
  frames : Answer
  frame : Answer
  headers : Answer
  extensions : Bool → Answer
  extension : Text → Answer
  line : Text → Answer
  null : Answer

abbrev index_root : Bool → Text → Answer
index_root warm key =
    if text_eq key (codes "tls")
    then tls warm
    else if text_eq key (codes "http2")
    then http2
    else null

abbrev index_tls : Bool → Text → Answer
index_tls warm key =
    if text_eq key (codes "ja3_hash")
    then line (if warm then warm_ja3_hash else cold_ja3_hash)
    else if text_eq key (codes "ja4_r")
    then line (if warm then codes "t13d1514h2_c_e_w" else codes "t13d1513h2_c_e_s")
    else extensions warm

abbrev index : Answer → Text → Answer
index (root warm) key = index_root warm key
index (tls warm) key = index_tls warm key
index http2 key = if text_eq key (codes "sent_frames") then frames else line expected_akamai_h2
index frame key = if text_eq key (codes "frame_type") then line (codes "HEADERS") else headers
index value key = null

abbrev valued : Text → Answer
valued name = line (name ++ codes ": v")

abbrev as_array : Answer → Option (List Answer)
as_array frames = some (frame ∷ [])
as_array headers = some (map valued (expected_pseudo_order ++ expected_grindr_headers))
as_array (extensions warm) =
    some
      (map extension (if warm then expected_tls_extensions_warm else expected_tls_extensions_cold))
as_array value = none

abbrev as_str : Answer → Option Text
as_str (line t) = some t
as_str value = none

abbrev get : Answer → Text → Option Answer
get (extension name) key = some (line (name ++ codes " (1)"))
get value key = none

abbrev sha256 : Text → Text
sha256 s =
    if text_eq s (codes "c")
    then 0x8d ∷ 0xaa ∷ 0xf6 ∷ 0x15 ∷ 0x27 ∷ 0x71 ∷ 0 ∷ []
    else if text_eq s (codes "0015,e_s")
    then 0xec ∷ 0xa8 ∷ 0x64 ∷ 0xcc ∷ 0xa4 ∷ 0x4a ∷ 0 ∷ []
    else 0xfa ∷ 0xdf ∷ 0xda ∷ 0xe0 ∷ 0x4b ∷ 0x4e ∷ 0 ∷ []

abbrev lib : ProbeLib
lib = record {
  Value = Answer;
  index = index;
  get = get;
  as_str = as_str;
  as_array = as_array;
  sha256 = sha256;
  to_lowercase = λ t. t;
}

abbrev outside : Outside lib
outside = record {
  builds = λ settings. settings.gzip;
  answer = λ mode phase. some (root phase.warm);
}

abbrev no_args : List Text
no_args = codes "fingerprint_check" ∷ []

-- The HTTP/2 client passes; the other one would have to show HTTP/1.1 fingerprints.
main-runs : (main lib outside no_args ≡ true) × (main lib outside (codes "--all" ∷ []) ≡ false)
unfolding main
main-runs = (refl, refl)

main-Passes_example :
    (main lib outside no_args ≡ true) ↔ All (ModePasses lib outside) (chosen_modes no_args)
main-Passes_example = main-Passes lib outside no_args

abbrev probe_items : List Header
probe_items =
    authorized_headers device (build_user_agent device (codes "Free"))
      (codes "Grindr3 fake-session-for-request") (codes "[FREE]")

probe_headers-run : probe_headers header_lib device ≡ ok probe_items
unfolding probe_headers
probe_headers-run = refl

host-Apart : Apart (codes "host" ∷ []) expected_grindr_headers
unfolding codes
host-Apart = ground arith

probe_headers-pass_example :
    check_names (codes "host" ∷ (map (λ h. h.0) probe_items ++ (codes "connection" ∷ []))) ≡ []
probe_headers-pass_example =
    probe_headers-pass header_lib device (codes "host" ∷ []) (codes "connection" ∷ []) probe_items
      probe_headers-run host-Apart

abbrev exts_before : List Text
exts_before = codes "0005" ∷ codes "000a" ∷ []

abbrev exts_after : List Text
exts_after = codes "0017" ∷ []

recompute-whole_example :
    (recompute_ja4_spec (drop 10) (codes "t13d_1301_0005,000a,0017_0403")
      ≡ codes "t13d__303031352c30")
    × (recompute_ja4_spec (drop 10) (codes "t13d_1301_0005,000a,0015,0017_0403")
        ≡ codes "t13d__303031352c30")
unfolding codes text_le text_eq join ja4_over sha256_truncated
recompute-whole_example =
    recompute-whole (drop 10) (codes "t13d") (codes "1301") (codes "0403") exts_before exts_after
      (refl, refl, refl) ((refl, refl), ((refl, refl), ((refl, refl), tt))) refl
      ((refl, (refl, (refl, tt))), refl, (refl, tt))
