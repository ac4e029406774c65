-- ===== src/Device/Others.antt =====
-- src/device.rs: the entries of `DEVICE_PROFILES` for Xiaomi, motorola and Nothing.
use grindr_rs.Prelude.{List, [], ◌∷◌}
use package.grindr_rs.Device.Profile.{DeviceProfile, profile}

abbrev pub xiaomi : List DeviceProfile
xiaomi =
    profile "Xiaomi" "2201123G" "2400x1080" "8026152960" (
      (12, "SKQ1.211006.001")
      ∷ (13, "TKQ1.220807.001")
      ∷ (14, "UKQ1.230917.001")
      ∷ (15, "AQ3A.241006.001")
      ∷ [])
    ∷ profile "Xiaomi" "2211133G" "2400x1080" "8026152960" (
        (13, "TKQ1.220905.001")
        ∷ (14, "UKQ1.230804.001")
        ∷ (15, "AQ3A.240912.001")
        ∷ (16, "BP2A.250605.031.A3")
        ∷ [])
    ∷ profile "Xiaomi" "23078PND5G" "2712x1220" "8026152960"
        ((13, "TP1A.220624.014") ∷ (14, "UP1A.230905.011") ∷ [])
    ∷ profile "Xiaomi" "23127PN0CG" "2670x1200" "12017676288"
        ((14, "UKQ1.230804.001") ∷ (15, "AQ3A.240627.003") ∷ (16, "BP2A.250605.031.A3") ∷ [])
    ∷ profile "Xiaomi" "23021RAA2Y" "2400x1080" "3852152832"
        ((13, "TKQ1.221114.001") ∷ (14, "UKQ1.230917.001") ∷ (15, "AQ3A.240829.003") ∷ [])
    ∷ profile "Xiaomi" "23117RA68G" "2712x1220" "8026152960"
        ((13, "TP1A.220624.014") ∷ (14, "UP1A.231005.007") ∷ (15, "AP3A.240905.015.A2") ∷ [])
    ∷ profile "Xiaomi" "23049PCD8G" "2400x1080" "8026152960"
        ((13, "TKQ1.221114.001") ∷ (14, "UKQ1.230804.001") ∷ [])
    ∷ []

abbrev pub motorola : List DeviceProfile
motorola =
    profile "motorola" "motorola edge 40" "2400x1080" "8026152960" ((13, "T2TL33.3-41-2") ∷ [])
    ∷ profile "motorola" "moto g84 5G" "2400x1080" "8026152960"
        ((13, "T3TC33.18-12-3") ∷ (14, "U1TC34.22-64-6") ∷ (15, "V1TC35H.88-16") ∷ [])
    ∷ []

abbrev pub nothing : List DeviceProfile
nothing =
    profile "Nothing" "A065" "2412x1080" "12017676288"
      ((13, "TKQ1.221220.001") ∷ (14, "UP1A.231005.007") ∷ (15, "AQ3A.240912.001") ∷ [])
    ∷ profile "Nothing" "A142" "2412x1080" "8026152960"
        ((14, "UP1A.231005.007") ∷ (15, "AP3A.240617.008") ∷ [])
    ∷ []
