-- ===== src/Rest/Summary.antt =====
-- src/rest.rs: the text that stands for an error body without a JSON message.
pub mod Bounds
use grindr_rs.Prelude.{
  ℕ, zero, suc, ◌+◌, Bool, ◌&&◌, ◌||◌, not, Option, none, some, ◌++◌, Text, codes, length, take,
  drop, get_elem?, and_then, is_some, is_none_or, ltb, leb, if◌then◌else◌, ◌==◌, starts_with,
}
use grindr_rs.Error.Show.{decimal}
use grindr_rs.Codec.{Codec}
use package.grindr_rs.Rest.Lossy.{from_utf8_lossy}
use package.grindr_rs.Rest.Search.{
  is_continuation, chars, concat, trim, find_ignore_ascii_case, find_byte,
}

abbrev pub max_error_body : ℕ
max_error_body = 256

abbrev pub max_error_title : ℕ
max_error_title = 100

looks_like_markup : Text → Bool
unfolding codes starts_with find_ignore_ascii_case
looks_like_markup text =
    starts_with (codes "<") text
    || is_some (find_ignore_ascii_case text (codes "<html"))
    || is_some (find_ignore_ascii_case text (codes "<!doctype"))

-- `take(MAX_ERROR_TITLE)` counts characters.
title_of : Text → Option Text
unfolding trim concat chars
title_of inner =
    let title = concat (take max_error_title (chars (trim inner))) in
    if ltb 0 (length title) then some title else none

pub html_title : Text → Option Text
unfolding codes find_ignore_ascii_case find_byte title_of
html_title text = and_then (find_ignore_ascii_case text (codes "<title")) λ at.
    let after_name = drop (at + 6) text in
    and_then (find_byte after_name b'>') λ close.
      let rest = drop (close + 1) after_name in
      and_then (find_ignore_ascii_case rest (codes "</title>")) λ end. title_of (take end rest)

-- `str::is_char_boundary`: the byte at the index, if there is one, does not continue a character.
unfoldable pub is_char_boundary : Text → ℕ → Bool
is_char_boundary text i =
    i == 0
    || i == length text
    || (ltb i (length text) && is_none_or (get_elem? text i) (λ b. not (is_continuation b)))

-- `while end > 0 && !text.is_char_boundary(end) { end -= 1 }`.
unfoldable pub floor_boundary : Text → ℕ → ℕ
floor_boundary text zero = zero
floor_boundary text (suc end) =
    if is_char_boundary text (suc end) then suc end else floor_boundary text end

-- The end of the function, on a text that is not markup.
unfoldable pub truncate : Text → Text
unfolding codes
truncate text =
    if leb (length text) max_error_body
    then text
    else take (floor_boundary text max_error_body) text ++ codes "..."

module _ (codec : Codec) where
  describe_markup : ℕ → Option Text → Text
  unfolding codes decimal
  describe_markup size none = codes "non-JSON response (html, " ++ (decimal size ++ codes " bytes)")
  describe_markup size (some title) =
      codes "non-JSON response (html, "
      ++ (decimal size ++ (codes " bytes, title: " ++ (codec.debug title ++ codes ")")))

  pub summarize_error_body : Text → Text
  unfolding codes from_utf8_lossy trim looks_like_markup html_title describe_markup
  summarize_error_body bytes =
      let text = trim (from_utf8_lossy bytes) in
      if length text == 0
      then codes "unknown error"
      else if looks_like_markup text
      then describe_markup (length bytes) (html_title text)
      else truncate text
