-- ===== src/Device.antt =====
-- src/device.rs: the device identity, and how a random one is made from the hardware table. The
-- random draws are arguments.
pub mod Profile
pub mod Google
pub mod Samsung
pub mod Others
pub mod Timezones
pub mod Hex
use grindr_rs.Prelude.{
  ℕ, zero, suc, String, Option, none, some, List, [], ◌∷◌, ◌++◌, Text, codes, length, get_elem?,
}
use grindr_rs.Error.Show.{decimal}
use Profile.{DeviceProfile}
use Google.{google}
use Samsung.{samsung}
use Others.{xiaomi, motorola, nothing}
use Timezones.{safe_timezones}
use Hex.{hex_16}

abbrev pub device_profiles : List DeviceProfile
device_profiles = google ++ (samsung ++ (xiaomi ++ (motorola ++ nothing)))

pub record DeviceInfo : Type 0 where
  pub device_type : ℕ
  pub device_id : Text
  pub os : Text
  pub screen_resolution : Text
  pub total_ram : Text
  pub advertising_id : Text
  pub device_model : Text
  pub manufacturer : Text
  pub timezone : Text
  pub locale : Text
  pub accept_language : Text
  pub build_id : Text

device_of : DeviceProfile → ℕ × String → String → ℕ → Text → DeviceInfo
unfolding codes decimal hex_16
device_of profile (android_version, build_id) timezone id uuid = record {
  device_type = 2;
  device_id = hex_16 id;
  os = codes "Android " ++ decimal android_version;
  screen_resolution = codes profile.screen_resolution;
  total_ram = codes profile.total_ram;
  advertising_id = uuid;
  device_model = codes profile.device_model;
  manufacturer = codes profile.manufacturer;
  timezone = codes timezone;
  locale = codes "en_US";
  accept_language = codes "en-US";
  build_id = codes build_id;
}

infixl 5 ◌>>=◌
abbrev ◌>>=◌ : {A B : Type 0} → Option A → (A → Option B) → Option B
none >>= f = none
some a >>= f = f a

-- The draws: an index into each table, the random `u64` and the UUID. `none` is an index out of
-- range, a panic.
unfoldable pub generate : ℕ → ℕ → ℕ → ℕ → Text → Option DeviceInfo
unfolding device_of
generate profile_index timezone_index build_index id uuid = do
  profile ← get_elem? device_profiles profile_index
  timezone ← get_elem? safe_timezones timezone_index
  build ← get_elem? profile.builds build_index
  some (device_of profile build timezone id uuid)
