-- ===== src/Media/Hosts.antt =====
-- src/media.rs: the hosts that media may come from, and the redirects that are followed. The parser
-- of URLs is a library: a URL is its scheme and its host.
pub mod Redirects
use grindr_rs.Prelude.{
  ℕ, suc, Bool, true, false, not, ◌&&◌, ◌||◌, Option, none, some, List, [], ◌∷◌, Text, codes,
  text_eq, ends_with, is_some_and, any, ltb, if◌then◌else◌,
}

pub record Url : Type 0 where
  pub scheme : Text
  pub host : Option Text

abbrev pub max_redirects : ℕ
max_redirects = 5

abbrev pub giphy_hosts : List Text
giphy_hosts =
    codes "api.giphy.com"
    ∷ codes "media.giphy.com"
    ∷ codes "media0.giphy.com"
    ∷ codes "media1.giphy.com"
    ∷ codes "media2.giphy.com"
    ∷ codes "media3.giphy.com"
    ∷ codes "media4.giphy.com"
    ∷ []

unfoldable pub is_cdn_host : Text → Bool
unfolding codes text_eq ends_with
is_cdn_host host =
    text_eq host (codes "cdns.grindr.com")
    || ends_with (codes ".cloudfront.net") host
    || any (text_eq host) giphy_hosts

unfoldable pub is_media_host : Url → Bool
unfolding is_cdn_host codes text_eq
is_media_host url = text_eq url.scheme (codes "https") && is_some_and url.host is_cdn_host

-- The policy of a request: `previous` counts the URLs that were requested before the hop, the first
-- of them included.
unfoldable pub follows : ℕ → Url → Bool
unfolding is_media_host
follows previous url = not (ltb max_redirects previous || not (is_media_host url))

-- The URLs that are requested after redirects to `targets`, each given by the answer before.
unfoldable pub hops : ℕ → List Url → List Url
unfolding follows
hops previous [] = []
hops previous (url ∷ targets) =
    let rest = hops (suc previous) targets in if follows previous url then url ∷ rest else []

-- All URLs that a media request asks for; none if the first is not allowed.
unfoldable pub visited : Url → List Url → List Url
unfolding hops is_media_host
visited url targets = if is_media_host url then url ∷ hops 1 targets else []
