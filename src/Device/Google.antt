-- ===== src/Device/Google.antt =====
-- src/device.rs: the entries of `DEVICE_PROFILES` for Google.
use grindr_rs.Prelude.{List, [], ◌∷◌}
use package.grindr_rs.Device.Profile.{DeviceProfile, profile}

abbrev pub google : List DeviceProfile
google =
    profile "Google" "Pixel 6" "2400x1080" "8026152960" (
      (12, "SQ1D.220205.004")
      ∷ (13, "TQ3A.230901.001")
      ∷ (14, "AP2A.240905.003.F1")
      ∷ (15, "BP1A.250505.005")
      ∷ (16, "CP1A.260405.005")
      ∷ [])
    ∷ profile "Google" "Pixel 6 Pro" "3120x1440" "12017676288" (
        (12, "SQ1D.220205.004")
        ∷ (13, "TQ3A.230901.001")
        ∷ (14, "AP2A.240905.003.F1")
        ∷ (15, "BP1A.250505.005")
        ∷ (16, "CP1A.260405.005")
        ∷ [])
    ∷ profile "Google" "Pixel 6a" "2400x1080" "5938152960" (
        (12, "SD2A.220601.004")
        ∷ (13, "TQ3A.230805.001")
        ∷ (14, "AP2A.240905.003.F1")
        ∷ (15, "BP1A.250505.005")
        ∷ (16, "CP1A.260405.005")
        ∷ [])
    ∷ profile "Google" "Pixel 7" "2400x1080" "8026152960" (
        (13, "TQ3A.230901.001")
        ∷ (14, "AP2A.240905.003")
        ∷ (15, "BP1A.250505.005.B1")
        ∷ (16, "CP1A.260405.005")
        ∷ [])
    ∷ profile "Google" "Pixel 7 Pro" "3120x1440" "12017676288" (
        (13, "TQ3A.230901.001")
        ∷ (14, "AP2A.240905.003")
        ∷ (15, "BP1A.250505.005.B1")
        ∷ (16, "CP1A.260405.005")
        ∷ [])
    ∷ profile "Google" "Pixel 7a" "2400x1080" "8026152960" (
        (13, "TQ3A.230901.001")
        ∷ (14, "AP2A.240905.003")
        ∷ (15, "BP1A.250505.005.B1")
        ∷ (16, "CP1A.260505.005")
        ∷ [])
    ∷ profile "Google" "Pixel 8" "2400x1080" "8026152960"
        ((14, "AP2A.240905.003") ∷ (15, "BP1A.250505.005.B1") ∷ (16, "CP1A.260505.005") ∷ [])
    ∷ profile "Google" "Pixel 8 Pro" "2992x1344" "12017676288"
        ((14, "AP2A.240905.003") ∷ (15, "BP1A.250505.005.B1") ∷ (16, "CP1A.260505.005") ∷ [])
    ∷ profile "Google" "Pixel 8a" "2400x1080" "8026152960"
        ((14, "AP2A.240905.003.A1") ∷ (15, "BP1A.250505.005.B1") ∷ (16, "CP1A.260505.005") ∷ [])
    ∷ profile "Google" "Pixel 9" "2424x1080" "12017676288"
        ((14, "AD1A.240905.004") ∷ (15, "BP1A.250505.005") ∷ (16, "CP1A.260505.005") ∷ [])
    ∷ profile "Google" "Pixel 9 Pro" "2856x1280" "16065654784"
        ((14, "AD1A.240905.004") ∷ (15, "BP1A.250505.005") ∷ (16, "CP1A.260505.005") ∷ [])
    ∷ profile "Google" "Pixel 9 Pro XL" "2992x1344" "16065654784"
        ((14, "AD1A.240905.004") ∷ (15, "BP1A.250505.005") ∷ (16, "CP1A.260505.005") ∷ [])
    ∷ []
