-- ===== src/Device/Profile.antt =====
-- src/device.rs: `DeviceProfile`, an entry of the hardware table.
use grindr_rs.Prelude.{ℕ, String, List}

-- manufacturer, device_model, screen_resolution, total_ram and the (Android version, build id) pairs
pub record DeviceProfile : Type 0 where
  pub manufacturer : String
  pub device_model : String
  pub screen_resolution : String
  pub total_ram : String
  pub builds : List (ℕ × String)

abbrev pub profile : String → String → String → String → List (ℕ × String) → DeviceProfile
profile m d s r b = record {
  manufacturer = m;
  device_model = d;
  screen_resolution = s;
  total_ram = r;
  builds = b;
}
