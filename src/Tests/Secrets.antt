-- ===== src/Tests/Secrets.antt =====
-- What two sessions with other secrets print, and a connection to a host that nobody named.
use grindr_rs.Prelude.{
  text_eq, false, true, none, some, List, [], ◌∷◌, ◌++◌, Text, codes, ◌≡◌, refl, arith,
}
use grindr_rs.Error.{headers}
use grindr_rs.Signing.{DeviceSigningKey}
use grindr_rs.Auth.Session.{Session}
use grindr_rs.Auth.Debug.{debug_session, debug_signing_key}
use grindr_rs.Auth.Debug.Redacts.{debug-SameButSecrets}
use grindr_rs.Media.Liveness.{Stall, new, stamp, retire}
use grindr_rs.Media.Liveness.Unnamed.{Event, calls, resolves, progresses, happen_all, unnamed_since}
use package.grindr_rs.Tests.Setting.{session_until}
use grindr_rs.Media.Hosts.{is_cdn_host}

abbrev quote : Text → Text
quote t = 34 ∷ (t ++ (34 ∷ []))

abbrev renewed : Session
renewed = record (session_until 3_600) {
  token = some (record { session_id = codes "new"; expires_at = 3_600; restriction = none });
}

abbrev key : DeviceSigningKey
key = record { key = codes "k"; user_id = codes "7" }

abbrev other_key : DeviceSigningKey
other_key = record { key = codes "l"; user_id = codes "7" }

debug-SameButSecrets_example :
    (debug_session quote (session_until 3_600) ≡ debug_session quote renewed)
    × (debug_signing_key quote key ≡ debug_signing_key quote other_key)
debug-SameButSecrets_example =
    debug-SameButSecrets quote (session_until 3_600) renewed key other_key
      (refl, refl, refl, refl, (refl, refl)) refl

debug_token-run :
    debug_signing_key quote key ≡ codes "DeviceSigningKey { key: \"<redacted>\", user_id: \"7\" }"
unfolding debug_signing_key codes
debug_token-run = refl

-- A connection is under way when the request begins; a name is looked up for it later.
abbrev before : List Event
before = calls ∷ progresses (codes "cdns.grindr.com") 0 3 ∷ []

abbrev since : List Event
since = resolves (codes "cdns.grindr.com") ∷ calls ∷ calls ∷ []

abbrev late : Stall
late = record {
  stamp = stamp (happen_all before new) (codes "cdns.grindr.com") 5;
  phase = headers;
  current = true;
  redirected = false;
}

unnamed_since_example :
    retire (happen_all since (happen_all before new)) late 30_000
    ≡ (happen_all since (happen_all before new), false)
unfolding is_cdn_host codes text_eq
unnamed_since_example =
    unnamed_since before since (codes "cdns.grindr.com") 5 30_000 late (omega arith, tt) refl
      (omega arith)
