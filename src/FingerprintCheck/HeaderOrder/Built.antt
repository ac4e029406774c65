-- ===== src/FingerprintCheck/HeaderOrder/Built.antt =====
-- examples/fingerprint_check.rs and src/headers.rs: the headers that the client sends are in order.
use grindr_rs.Prelude.{
  ℕ, suc, ◌+◌, ◌≤◌, List, [], ◌∷◌, ◌++◌, Text, text_eq, codes, map, length, ◌≡◌, ◌≢◌, refl, subst,
  arith, All,
}
use grindr_rs.Error.{ok}
use grindr_rs.Device.{DeviceInfo}
use grindr_rs.Headers.{HeaderLib, Header, build_user_agent}
use grindr_rs.Headers.Names.{authorized_headers, build-authorized}
use package.grindr_rs.FingerprintCheck.Expected.{expected_grindr_headers}
use package.grindr_rs.FingerprintCheck.Run.{probe_headers}
use package.grindr_rs.FingerprintCheck.HeaderOrder.{position, place_in, check_names}
use package.grindr_rs.FingerprintCheck.HeaderOrder.InOrder.{
  IsFirst, Rises, place-IsFirst, check_names-Rises,
}
use grindr_rs.Texts.{position}

-- None of the names is one of the headers.
abbrev pub Apart : List Text → List Text → Type 0
Apart before = All (λ h. All (λ n. n ≢ h) before)

IsFirst-after :
    (name : Text) (before names : List Text) (i : ℕ)
    → All (λ n. n ≢ name) before
    → IsFirst name names i
    → IsFirst name (before ++ names) (length before + i)
IsFirst-after name [] names i h first = subst (IsFirst name names) (omega arith) first
IsFirst-after name (n ∷ ns) names i (ne, h) first =
    let next_place : suc (length ns + i) ≡ suc (length ns) + i = omega arith in
    subst (IsFirst name (n ∷ (ns ++ names))) next_place (ne, IsFirst-after name ns names i h first)

Rises-after :
    (lower : ℕ) (before names hs : List Text)
    → Apart before hs
    → Rises lower names hs
    → Rises (length before + lower) (before ++ names) hs
Rises-after lower before names [] h r = tt
Rises-after lower before names (n ∷ ns) (here, h) (i, first, le, r) = (
  length before + i,
  IsFirst-after n before names i here first,
  omega arith,
  Rises-after i before names ns h r,
)

Rises-weaker :
    (less lower : ℕ) (names hs : List Text)
    → less ≤ lower
    → Rises lower names hs
    → Rises less names hs
Rises-weaker less lower names [] below r = tt
Rises-weaker less lower names (n ∷ ns) below (i, first, le, r) = (i, first, omega arith, r)

authorized-Rises :
    (device : DeviceInfo) (user_agent authorization roles : Text) (after : List Text)
    → Rises 0
        (map (λ h. h.0) (authorized_headers device user_agent authorization roles) ++ after)
        expected_grindr_headers
unfolding codes place_in position text_eq
authorized-Rises device user_agent authorization roles after =
    let names : List Text =
      map (λ h. h.0) (authorized_headers device user_agent authorization roles) ++ after in
    (
      0,
      place-IsFirst (codes "authorization") names 0 refl,
      omega arith,
      (
        1,
        place-IsFirst (codes "l-time-zone") names 1 refl,
        omega arith,
        (
          2,
          place-IsFirst (codes "l-grindr-roles") names 2 refl,
          omega arith,
          (
            3,
            place-IsFirst (codes "l-device-info") names 3 refl,
            omega arith,
            (
              4,
              place-IsFirst (codes "accept") names 4 refl,
              omega arith,
              (
                5,
                place-IsFirst (codes "user-agent") names 5 refl,
                omega arith,
                (
                  6,
                  place-IsFirst (codes "l-locale") names 6 refl,
                  omega arith,
                  (7, place-IsFirst (codes "accept-language") names 7 refl, omega arith, tt),
                ),
              ),
            ),
          ),
        ),
      ),
    )

-- The check of the header names finds nothing in the headers that the client builds for the probe, whatever the
-- device is and whatever stands after them, if none of the headers that it looks for stands before them.
pub probe_headers-pass :
    (headers : HeaderLib) (device : DeviceInfo) (before after : List Text) (items : List Header)
    → probe_headers headers device ≡ ok items
    → Apart before expected_grindr_headers
    → check_names (before ++ (map (λ h. h.0) items ++ after)) ≡ []
unfolding probe_headers
probe_headers-pass headers device before after items built apart =
    let user_agent : Text = build_user_agent device (codes "Free") in
    let authorization : Text = codes "Grindr3 fake-session-for-request" in
    let roles : Text = codes "[FREE]" in
    let names : List Text =
      map (λ h. h.0) (authorized_headers device user_agent authorization roles) ++ after in
    rw (build-authorized headers device user_agent authorization roles built) (
      (check_names-Rises (before ++ names)).1 (
        Rises-weaker 0 (length before + 0) (before ++ names) expected_grindr_headers (omega arith) (
          Rises-after 0 before names expected_grindr_headers apart
            (authorized-Rises device user_agent authorization roles after))))
