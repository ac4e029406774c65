-- ===== src/Device/Timezones.antt =====
-- src/device.rs: `SAFE_TIMEZONES`.
use grindr_rs.Prelude.{String, List, [], ◌∷◌}

abbrev pub safe_timezones : List String
safe_timezones =
    "Europe/Dublin" ∷ "Europe/Zurich" ∷ "Europe/Prague" ∷ "Europe/Bratislava" ∷ "Europe/Budapest"
    ∷ "Europe/Bucharest" ∷ "Europe/Sofia" ∷ "Europe/Zagreb" ∷ "Europe/Vilnius" ∷ "Europe/Riga"
    ∷ "Europe/Tallinn" ∷ "Europe/Luxembourg" ∷ "Europe/Malta" ∷ "America/Mexico_City"
    ∷ "America/Argentina/Buenos_Aires" ∷ "America/Santiago" ∷ "America/Bogota" ∷ "America/Lima"
    ∷ "America/Montevideo" ∷ "Asia/Tokyo" ∷ "Asia/Taipei" ∷ "Asia/Seoul" ∷ "Asia/Bangkok"
    ∷ "Asia/Manila" ∷ "Asia/Singapore" ∷ []
