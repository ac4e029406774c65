-- ===== src/Tests/Photos.antt =====
-- Runs of media requests.
use grindr_rs.Prelude.{
  ◌+◌, ℕ, true, none, some, [], ◌∷◌, codes, text_eq, length, leb, ◌≡◌, refl, arith, inl,
  if◌then◌else◌,
}
use grindr_rs.Error.{media_too_large, ok, err}
use grindr_rs.Media.Hosts.{Url, is_media_host, is_cdn_host}
use grindr_rs.Headers.{build_media, header, range_or_gzip}
use grindr_rs.Media.Transfer.{Piece}
use grindr_rs.Media.Request.{Target, image_loader, media_headers, checked_url, allowed_url, host_of}
use grindr_rs.Media.Send.{
  Media, Client, Response, silent, answered, send_media, send_media_once, send_to, send_with,
  record_progress, wait, begin, attempt_of, concluded, after_first, second, resendable_on, retired,
  retire_if_stuck,
}
use grindr_rs.Media.Send.Twice.{AtMost}
use grindr_rs.Media.Fetch.{MediaRequest, fetch_media, fetched, in_time, response_of, read_pieces}
use grindr_rs.Media.Fetch.Fits.{Fits, fetch_media-Fits}
use grindr_rs.Media.Stream.{MediaStream, drain}
use grindr_rs.Media.Stream.Drained.{drain-read_pieces}
use grindr_rs.Media.Liveness.{
  new, progressed, update, retire, may_retire, is_quiet, is_pooled, unnamed, is_headers, is_armed,
  stamp,
}
use package.grindr_rs.Tests.Setting.{header_lib, device}

abbrev photo_url : Url
photo_url = record { scheme = codes "https"; host = some (codes "cdns.grindr.com") }

-- A server that is silent at first and then answers with a photo of four bytes.
abbrev photo_response : Response
photo_response = record {
  host = codes "cdns.grindr.com";
  status = 200;
  content_type = some (codes "image/webp");
  content_length = none;
  content_range = none;
  accept_ranges = none;
  pieces = Piece.chunk (1 ∷ 2 ∷ []) ∷ Piece.chunk (3 ∷ 4 ∷ []) ∷ [];
  whole = true;
}

abbrev media : Media
media = record {
  url = record { parse = λ t. inl photo_url; debug = λ t. t };
  header = header_lib;
  outcome = λ n. if leb n 2 then silent else answered photo_response;
  redirects = λ n. if leb n 2 then [] else photo_url ∷ [];
  now = λ n. n;
  others = λ n shared. shared;
  new_client = λ n. some (n + 100);
}

abbrev client : Client
client = record {
  turn = 0;
  fingerprint = record { id = 1; device = device; user_agent = codes "ua" };
  liveness = new;
  sent = [];
}

abbrev target : Target
target = record { url = codes "https://cdns.grindr.com/a"; range = none; fetcher = image_loader }

abbrev fetch : ℕ → MediaRequest
fetch max_bytes = record { target = target; max_bytes = max_bytes }

sent_twice :
    (length (send_media media target client).1.sent ≡ 2)
    × ((fetch_media media (fetch 3) client).0 ≡ err (media_too_large 3))
    × ((elim (fetch_media media (fetch 4) client).0 [ ok r ↦ r.body | err e ↦ [] ])
        ≡ 1 ∷ 2 ∷ 3 ∷ 4 ∷ [])
unfolding send_media send_media_once wait begin attempt_of concluded after_first second
    resendable_on retired retire_if_stuck retire may_retire is_quiet is_pooled unnamed is_headers
    is_armed new stamp text_eq codes progressed update fetch_media fetched read_pieces in_time
    response_of checked_url allowed_url is_media_host is_cdn_host media_headers build_media header
    range_or_gzip send_to send_with record_progress host_of
sent_twice = (refl, refl, refl)

fetch_media-Fits_example :
    let (result, after) = fetch_media media (fetch 4) client in
    Fits 4 result × AtMost 2 client.sent after.sent
fetch_media-Fits_example = fetch_media-Fits media (fetch 4) client

abbrev photo_stream : MediaStream
photo_stream = record {
  status = 200;
  content_type = none;
  content_length = none;
  content_range = none;
  accept_ranges = none;
  pieces = photo_response.pieces;
  progress = record { host = codes "cdns.grindr.com"; generation = 0 };
}

drain-read_pieces_example : drain media 3 [] photo_stream client ≡ (
  some (read_pieces media 4 photo_stream.progress [] photo_stream.pieces client).0,
  (read_pieces media 4 photo_stream.progress [] photo_stream.pieces client).1,
)
drain-read_pieces_example =
    drain-read_pieces media 4 3 photo_stream client (omega arith) (omega arith)
