-- ===== src/Device/Samsung.antt =====
-- src/device.rs: the entries of `DEVICE_PROFILES` for samsung.
use grindr_rs.Prelude.{List, [], ◌∷◌}
use package.grindr_rs.Device.Profile.{DeviceProfile, profile}

abbrev pub samsung : List DeviceProfile
samsung =
    profile "samsung" "SM-S901B" "2340x1080" "8026152960" (
      (12, "SP1A.210812.016")
      ∷ (13, "TP1A.220624.014")
      ∷ (14, "UP1A.231005.007")
      ∷ (15, "AP3A.240905.015.A2")
      ∷ (16, "BP2A.250605.031.A3")
      ∷ [])
    ∷ profile "samsung" "SM-S906B" "2340x1080" "8026152960" (
        (12, "SP1A.210812.016")
        ∷ (13, "TP1A.220624.014")
        ∷ (14, "UP1A.231005.007")
        ∷ (15, "AP3A.240905.015.A2")
        ∷ (16, "BP2A.250605.031.A3")
        ∷ [])
    ∷ profile "samsung" "SM-S908B" "3088x1440" "12017676288" (
        (12, "SP1A.210812.016")
        ∷ (13, "TP1A.220624.014")
        ∷ (14, "UP1A.231005.007")
        ∷ (15, "AP3A.240905.015.A2")
        ∷ (16, "BP2A.250605.031.A3")
        ∷ [])
    ∷ profile "samsung" "SM-S911B" "2340x1080" "8026152960" (
        (13, "TP1A.220624.014")
        ∷ (14, "UP1A.231005.007")
        ∷ (15, "AP3A.240905.015.A2")
        ∷ (16, "BP2A.250605.031.A3")
        ∷ [])
    ∷ profile "samsung" "SM-S916B" "2340x1080" "8026152960" (
        (13, "TP1A.220624.014")
        ∷ (14, "UP1A.231005.007")
        ∷ (15, "AP3A.240905.015.A2")
        ∷ (16, "BP2A.250605.031.A3")
        ∷ [])
    ∷ profile "samsung" "SM-S918B" "3088x1440" "12017676288" (
        (13, "TP1A.220624.014")
        ∷ (14, "UP1A.231005.007")
        ∷ (15, "AP3A.240905.015.A2")
        ∷ (16, "BP2A.250605.031.A3")
        ∷ [])
    ∷ profile "samsung" "SM-S921B" "2340x1080" "8026152960"
        ((14, "UP1A.231005.007") ∷ (15, "AP3A.240905.015.A2") ∷ (16, "BP2A.250605.031.A3") ∷ [])
    ∷ profile "samsung" "SM-S926B" "2340x1080" "12017676288"
        ((14, "UP1A.231005.007") ∷ (15, "AP3A.240905.015.A2") ∷ (16, "BP2A.250605.031.A3") ∷ [])
    ∷ profile "samsung" "SM-S928B" "3120x1440" "12017676288"
        ((14, "UP1A.231005.007") ∷ (15, "AP3A.240905.015.A2") ∷ (16, "BP2A.250605.031.A3") ∷ [])
    ∷ profile "samsung" "SM-A546B" "2340x1080" "8026152960" (
        (13, "TP1A.220624.014")
        ∷ (14, "UP1A.231005.007")
        ∷ (15, "AP3A.240905.015.A2")
        ∷ (16, "BP2A.250605.031.A3")
        ∷ [])
    ∷ profile "samsung" "SM-A346B" "2340x1080" "8026152960" (
        (13, "TP1A.220624.014")
        ∷ (14, "UP1A.231005.007")
        ∷ (15, "AP3A.240905.015.A2")
        ∷ (16, "BP2A.250605.031.A3")
        ∷ [])
    ∷ profile "samsung" "SM-A145F" "2408x1080" "3852152832"
        ((13, "TP1A.220624.014") ∷ (14, "UP1A.231005.007") ∷ (15, "AP3A.240905.015.A2") ∷ [])
    ∷ profile "samsung" "SM-F731B" "2640x1080" "8026152960" (
        (13, "TP1A.220624.014")
        ∷ (14, "UP1A.231005.007")
        ∷ (15, "AP3A.240905.015.A2")
        ∷ (16, "BP2A.250605.031.A3")
        ∷ [])
    ∷ profile "samsung" "SM-F946B" "2176x1812" "12017676288" (
        (13, "TP1A.220624.014")
        ∷ (14, "UP1A.231005.007")
        ∷ (15, "AP3A.240905.015.A2")
        ∷ (16, "BP2A.250605.031.A3")
        ∷ [])
    ∷ []
