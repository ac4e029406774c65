-- ===== src/TestServer/Media.antt =====
-- src/testserver.rs `media_reply`: a file of the length that the path names, whole or a range of it.
use grindr_rs.Prelude.{
  ℕ, zero, suc, ◌+◌, ◌-◌, ◌*◌, ◌%◌, ◌^◌, min, Bool, ◌&&◌, ◌||◌, Option, none, some, List, [], ◌∷◌,
  ◌++◌, Text, codes, take, drop, length, and_then, map_option, unwrap_or, if◌then◌else◌, ltb, leb,
  ◌==◌,
}
use package.grindr_rs.Texts.{strip_prefix}
use package.grindr_rs.TestServer.State.{header_of}
use grindr_rs.Error.Show.{decimal}

pub record Reply : Type 0 where
  pub status : Text
  pub content_type : Text
  pub extra : List (Text × Text)
  pub body : Text
  pub pace : Option ℕ

abbrev is_digit : ℕ → Bool
is_digit b = leb 48 b && leb b 57

parse_digits : ℕ → Text → Option ℕ
parse_digits n [] = some n
parse_digits n (b ∷ s) =
    let next = n * 10 + (b - 48) in
    let rest = parse_digits next s in if is_digit b && ltb next (2 ^ 64) then rest else none

abbrev plus : ℕ
plus = 43

-- `str::parse` of a usize or a u64, of 64 bits: one plus sign may stand before the digits.
unfoldable pub parse_number : Text → Option ℕ
unfolding parse_digits
parse_number [] = none
parse_number (b ∷ []) = parse_digits 0 (b ∷ [])
parse_number (b ∷ c ∷ s) = if b == plus then parse_digits 0 (c ∷ s) else parse_digits 0 (b ∷ c ∷ s)

-- `str::split_once` at an ASCII character.
unfoldable pub split_once : Text → ℕ → Option (Text × Text)
split_once [] c = none
split_once (b ∷ s) c =
    let rest = split_once s c in
    if b == c then some ([], s) else map_option (λ parts. (b ∷ parts.0, parts.1)) rest

-- `(from..).map(|i| i as u8)`, of so many bytes.
unfoldable pub bytes_from : ℕ → ℕ → Text
bytes_from from zero = []
bytes_from from (suc n) = from % 256 ∷ bytes_from (from + 1) n

-- `full[start..=end]`, which panics out of range.
unfoldable pub slice : Text → ℕ → ℕ → Option Text
slice full start end =
    if ltb (end + 1) start || ltb (length full) (end + 1)
    then none
    else some (drop start (take (end + 1) full))

abbrev pub query_sign : ℕ
query_sign = 63

abbrev pub dash : ℕ
dash = 45

unfoldable pub redirect_reply : Text → Reply
unfolding codes
redirect_reply location = record {
  status = codes "302 Found";
  content_type = codes "text/plain";
  extra = (codes "location", location) ∷ [];
  body = [];
  pace = none;
}

unfoldable pub whole_reply : ℕ → Option ℕ → Reply
unfolding bytes_from codes
whole_reply length pace = record {
  status = codes "200 OK";
  content_type = codes "image/jpeg";
  extra = (codes "accept-ranges", codes "bytes") ∷ [];
  body = bytes_from 0 length;
  pace = pace;
}

unfoldable pub content_range : ℕ → ℕ → ℕ → Text
unfolding codes decimal
content_range start end length =
    codes "bytes "
    ++ (decimal start ++ (codes "-" ++ (decimal end ++ (codes "/" ++ decimal length))))

unfoldable pub range_reply : ℕ → Option ℕ → Text × Text → Option Reply
unfolding parse_number slice bytes_from codes content_range
range_reply length pace (start_text, end_text) =
    let start = unwrap_or (parse_number start_text) 0 in
    let end = unwrap_or (parse_number end_text) (length - 1) in
    map_option
      (λ body. record {
        status = codes "206 Partial Content";
        content_type = codes "video/mp4";
        extra =
            (codes "accept-ranges", codes "bytes")
            ∷ (codes "content-range", content_range start end length)
            ∷ [];
        body = body;
        pace = pace;
      })
      (slice (bytes_from 0 length) (min start length) (min end (length - 1)))

unfoldable pub range_of : List (Text × Text) → Option (Text × Text)
unfolding header_of strip_prefix split_once codes
range_of headers =
    and_then (header_of headers (codes "range"))
      λ value. and_then (strip_prefix value (codes "bytes=")) λ range. split_once range dash

unfoldable pub file_reply : ℕ → Option ℕ → Option (Text × Text) → Option Reply
unfolding whole_reply range_reply
file_reply length pace none = some (whole_reply length pace)
file_reply length pace (some range) = range_reply length pace range

unfoldable pub or_file : Text → List (Text × Text) → Option Text → Option Reply
unfolding redirect_reply split_once parse_number strip_prefix file_reply range_of codes
or_file rest headers (some location) = some (redirect_reply location)
or_file rest headers none =
    let parts = unwrap_or (split_once rest query_sign) (rest, []) in
    let pace = and_then (strip_prefix parts.1 (codes "drip=")) parse_number in
    file_reply (unwrap_or (parse_number parts.0) 0) pace (range_of headers)

-- Nothing if the range panics: the thread of the connection ends.
unfoldable pub media_reply : Text → List (Text × Text) → Option Reply
unfolding or_file strip_prefix codes
media_reply rest headers = or_file rest headers (strip_prefix rest (codes "redirect?to="))
