-- ===== src/Headers.antt =====
-- src/headers.rs: the header sets that the app sends, in their order, and the texts built from a
-- device. `valid` says whether the HTTP library takes a text as a header value.
pub mod Names
use grindr_rs.Prelude.{
  Bool, Option, none, some, List, [], ◌∷◌, ◌++◌, Text, codes, if◌then◌else◌, String,
}
use grindr_rs.Error.{http, Result, ok, err, ◌>>=◌}
use grindr_rs.Error.Show.{decimal}
use grindr_rs.Device.{DeviceInfo}

abbrev pub app_version : String
app_version = "26.22.0.192710"

abbrev pub build_number : String
build_number = "192710"

unfoldable pub build_user_agent : DeviceInfo → Text → Text
unfolding codes
build_user_agent device subscription_tier =
    codes "grindr3/"
    ++ (codes app_version
        ++ (codes ";"
            ++ (codes build_number
                ++ (codes ";"
                    ++ (subscription_tier
                        ++ (codes ";"
                            ++ (device.os
                                ++ (codes ";"
                                    ++ (device.device_model
                                        ++ (codes ";" ++ device.manufacturer))))))))))

unfoldable pub build_platform_user_agent : DeviceInfo → Text
unfolding codes
build_platform_user_agent device =
    codes "Dalvik/2.1.0 (Linux; U; "
    ++ (device.os
        ++ (codes "; "
            ++ (device.device_model ++ (codes " Build/" ++ (device.build_id ++ codes ")")))))

unfoldable pub build_device_info_header : DeviceInfo → Text
unfolding codes decimal
build_device_info_header device =
    device.device_id
    ++ (codes ";GLOBAL;"
        ++ (decimal device.device_type
            ++ (codes ";"
                ++ (device.total_ram
                    ++ (codes ";"
                        ++ (device.screen_resolution ++ (codes ";" ++ device.advertising_id)))))))

abbrev pub Header : Type 0
Header = Text × Text

-- What `HeaderValue::from_str` accepts, and the text of its error.
pub record HeaderLib : Type 0 where
  pub valid : Text → Bool
  pub reason : Text → Text

module _ (lib : HeaderLib) where
  -- A header with a computed value; `invalid_header` is the error.
  unfoldable pub header : String → Text → Result Header
  unfolding codes
  header name value =
      if lib.valid value
      then ok (codes name, value)
      else err (http (codes "invalid header value: " ++ lib.reason value))

  -- `if let Some(value) = … { items.push(…) }`.
  optional_header : String → Option Text → Result (List Header)
  unfolding header
  optional_header name none = ok []
  optional_header name (some value) = do ok ((← header name value) ∷ [])

  -- `GrindrHeaders::build`.
  unfoldable pub build : DeviceInfo → Text → Option Text → Option Text → Result (List Header)
  unfolding optional_header build_device_info_header codes
  build device user_agent authorization l_grindr_roles = do
    authorized ← optional_header "authorization" authorization
    zone ← header "l-time-zone" device.timezone
    roles ← optional_header "l-grindr-roles" l_grindr_roles
    info ← header "l-device-info" (build_device_info_header device)
    agent ← header "user-agent" user_agent
    ok (
        authorized
        ++ (zone
            ∷ (roles
                ++ (info
                    ∷ (codes "accept", codes "application/json")
                    ∷ agent
                    ∷ (codes "l-locale", codes "en_US")
                    ∷ (codes "accept-language", codes "en-US")
                    ∷ (codes "accept-encoding", codes "gzip")
                    ∷ []))))

  unfoldable pub range_or_gzip : Option Text → Result Header
  unfolding header codes
  range_or_gzip (some range) = header "range" range
  range_or_gzip none = ok (codes "accept-encoding", codes "gzip")

  finish_media : List Header → Option Text → Result (List Header)
  unfolding range_or_gzip
  finish_media items range = do last ← range_or_gzip range; ok (items ++ last ∷ [])

  unfoldable pub build_media : Text → Option Text → Result (List Header)
  unfolding header finish_media codes
  build_media user_agent range = do
    agent ← header "user-agent" user_agent
    finish_media ((codes "accept", codes "image/webp,image/*;q=0.8") ∷ agent ∷ []) range

  unfoldable pub build_platform_media : DeviceInfo → Option Text → Result (List Header)
  unfolding header finish_media build_platform_user_agent
  build_platform_media device range = do
    agent ← header "user-agent" (build_platform_user_agent device)
    finish_media (agent ∷ []) range

  unfoldable pub build_plain : Option Text → Result (List Header)
  unfolding range_or_gzip codes
  build_plain range = do
    first ← range_or_gzip range
    ok (first ∷ (codes "user-agent", codes "okhttp/5.5.0") ∷ [])
