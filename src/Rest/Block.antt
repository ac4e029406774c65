-- ===== src/Rest/Block.antt =====
-- src/rest.rs: an edge in front of the API answered instead of it.
use grindr_rs.Prelude.{
  ℕ, Bool, false, ◌&&◌, ◌||◌, not, Option, none, some, Text, codes, contains, length, is_none,
  if◌then◌else◌, ltb, leb, ◌==◌,
}
use grindr_rs.Error.{BlockKind, cloudflare, edge}
use grindr_rs.Codec.{Codec}
use package.grindr_rs.Rest.Lossy.{from_utf8_lossy}
use package.grindr_rs.Rest.Search.{trim_ascii}

-- `(200..300).contains(&status)`.
abbrev pub is_success : ℕ → Bool
is_success status = leb 200 status && ltb status 300

unfoldable pub is_cloudflare_challenge : ℕ → Text → Bool
unfolding codes contains from_utf8_lossy
is_cloudflare_challenge status body =
    if is_success status
    then false
    else let text = from_utf8_lossy body in
      contains (codes "_cf_chl_opt") text || contains (codes "/cdn-cgi/challenge-platform/") text

unfoldable pub is_cloudflare_block_page : Text → Bool
unfolding codes contains from_utf8_lossy
is_cloudflare_block_page body =
    let text = from_utf8_lossy body in
    contains (codes "Attention Required! | Cloudflare") text
    || contains (codes "Sorry, you have been blocked") text
    || contains (codes "/cdn-cgi/") text

module _ (codec : Codec) where
  unfoldable pub is_edge_block : ℕ → Text → Bool
  unfolding trim_ascii
  is_edge_block status body =
      if not (status == 403)
      then false
      else let trimmed = trim_ascii body in
        ltb 0 (length trimmed) && is_none (codec.from_slice trimmed)

  unfoldable pub block_kind : ℕ → Text → Option BlockKind
  block_kind status body =
      if is_cloudflare_challenge status body
      then some cloudflare
      else if not (is_edge_block status body)
      then none
      else some (if is_cloudflare_block_page body then cloudflare else edge)
