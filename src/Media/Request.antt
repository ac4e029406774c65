-- ===== src/Media/Request.antt =====
-- src/media.rs `media_request`: the checks on a media url, and the headers of the request. The parser
-- of URLs gives a URL or the text of its error.
use grindr_rs.Prelude.{Option, List, ◌++◌, Text, codes, unwrap_or, if◌then◌else◌, ◌⊎◌, inl, inr}
use grindr_rs.Error.{invalid_request, Result, ok, err}
use grindr_rs.Device.{DeviceInfo}
use grindr_rs.Headers.{HeaderLib, Header, build_media, build_platform_media, build_plain}
use package.grindr_rs.Media.Hosts.{Url, is_media_host}

pub data MediaFetcher : Type 0 where
  image_loader : MediaFetcher
  media_player : MediaFetcher
  plain : MediaFetcher

-- `MediaRequest` and `StreamRequest` are a target, the former with `max_bytes`.
pub record Target : Type 0 where
  pub url : Text
  pub range : Option Text
  pub fetcher : MediaFetcher

pub record UrlLib : Type 0 where
  pub parse : Text → Url ⊎ Text
  pub debug : Text → Text

module _ (lib : UrlLib) where
  -- A URL that was parsed, or not.
  unfoldable pub allowed_url : Text → Url ⊎ Text → Result Url
  unfolding is_media_host codes
  allowed_url url (inr e) =
      err (invalid_request (codes "media url " ++ (lib.debug url ++ (codes ": " ++ e))))
  allowed_url url (inl parsed) =
      if is_media_host parsed
      then ok parsed
      else err (invalid_request (codes "media url is not on an allowed host: " ++ lib.debug url))

  unfoldable pub checked_url : Target → Result Url
  unfolding allowed_url
  checked_url target = allowed_url target.url (lib.parse target.url)

unfoldable pub media_headers :
    HeaderLib → DeviceInfo → Text → MediaFetcher → Option Text → Result (List Header)
unfolding build_media build_platform_media build_plain
media_headers lib device user_agent image_loader range = build_media lib user_agent range
media_headers lib device user_agent media_player range = build_platform_media lib device range
media_headers lib device user_agent plain range = build_plain lib range

-- The host that a request is counted under.
unfoldable pub host_of : Url → Text
unfolding codes
host_of url = unwrap_or url.host (codes "")
