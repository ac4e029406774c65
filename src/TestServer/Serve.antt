-- ===== src/TestServer/Serve.antt =====
-- src/testserver.rs `serve`: a request whose head has been read, from its body to the reply.
use grindr_rs.Prelude.{
  ℕ, zero, suc, ◌+◌, ◌-◌, ◌/◌, max, Option, none, some, List, [], ◌∷◌, ◌++◌, Text, text_eq, codes,
  take, drop, length, and_then, map_option, unwrap_or, if◌then◌else◌, ltb, is_some,
}
use grindr_rs.Rest.Lossy.{from_utf8_lossy}
use package.grindr_rs.Texts.{strip_prefix}
use package.grindr_rs.TestServer.State.{State, Recorded, Payload, header_of}
use package.grindr_rs.TestServer.Reply.{respond, slow_read_prefix}
use package.grindr_rs.TestServer.Media.{Reply, media_reply, parse_number}
use grindr_rs.Error.Show.{decimal}

abbrev pub slow_read_chunks : ℕ
slow_read_chunks = 8

abbrev pub drip_pieces : ℕ
drip_pieces = 8

abbrev pub media_prefix : Text
media_prefix = codes "/media/"

abbrev pub stalled_path : Text
stalled_path = codes "/stalled"

abbrev pub silent_path : Text
silent_path = codes "/silent"

-- `length.div_ceil(pieces).max(1)`.
unfoldable pub piece_length : ℕ → ℕ → ℕ
piece_length length pieces = max ((length + (pieces - 1)) / pieces) 1

-- `[T]::chunks`, of as many chunks at most as the fuel is.
unfoldable pub chunks_on : ℕ → ℕ → Text → List Text
chunks_on zero size s = []
chunks_on (suc fuel) size [] = []
chunks_on (suc fuel) size (b ∷ s) = take size (b ∷ s) ∷ chunks_on fuel size (drop size (b ∷ s))

unfoldable pub chunks : ℕ → Text → List Text
unfolding chunks_on
chunks size s = chunks_on (length s) size s

-- `Read::read_exact`, from all that the client sends after the head.
unfoldable pub read_exact : ℕ → Text → Option (Text × Text)
read_exact n input = if ltb (length input) n then none else some (take n input, drop n input)

unfoldable pub read_chunks : List Text → Text → Option Text
unfolding read_exact
read_chunks [] input = some []
read_chunks (chunk ∷ later) input =
    and_then (read_exact (length chunk) input)
      λ parts. map_option (λ rest. parts.0 ++ rest) (read_chunks later parts.1)

unfoldable pub zeros : ℕ → Text
zeros zero = []
zeros (suc n) = 0 ∷ zeros n

unfoldable pub slow_pause : Text → Option ℕ
unfolding strip_prefix parse_number
slow_pause path = and_then (strip_prefix path slow_read_prefix) parse_number

unfoldable pub read_paced : ℕ → Text → Option ℕ → Option Text
unfolding read_exact read_chunks chunks zeros piece_length
read_paced n input none = map_option (λ parts. parts.0) (read_exact n input)
read_paced n input (some millis) =
    read_chunks (chunks (piece_length n slow_read_chunks) (zeros n)) input

unfoldable pub read_body : Text → Text → ℕ → Option Text
unfolding read_paced slow_pause
read_body input path n = read_paced n input (slow_pause path)

-- What is written of a body, piece by piece.
unfoldable pub write_body : Reply → List Text
unfolding chunks piece_length
write_body reply =
    if is_some reply.pace
    then chunks (piece_length (length reply.body) drip_pieces) reply.body
    else reply.body ∷ []

unfoldable pub json_reply : Payload → Reply
unfolding codes
json_reply payload = record {
  status = payload.0;
  content_type = codes "application/json";
  extra = [];
  body = payload.1;
  pace = none;
}

unfoldable pub or_respond : Recorded → State → Option Text → State × Option Reply
unfolding media_reply respond json_reply
or_respond r s (some rest) = (s, media_reply rest r.headers)
or_respond r s none =
    let responded = respond r.path r.headers s in (responded.0, some (json_reply responded.1))

-- The reply to a request whose body has been read; a reply that is queued for it is taken.
unfoldable pub answer : Recorded → State → State × Option Reply
unfolding or_respond strip_prefix
answer r s = or_respond r s (strip_prefix r.path media_prefix)

unfoldable pub push_recording : Recorded → State → State
unfolding from_utf8_lossy
push_recording r s = record s {
  recordings = s.recordings ++ (record r { body = from_utf8_lossy r.body } ∷ []);
}

unfoldable pub answered : Recorded → State × Option Reply → State × Option Reply
unfolding push_recording
answered r (s, none) = (s, none)
answered r (s, some reply) = (push_recording r s, some reply)

unfoldable pub content_length : List (Text × Text) → ℕ
unfolding header_of parse_number codes
content_length headers =
    unwrap_or (and_then (header_of headers (codes "content-length")) parse_number) 0

unfoldable pub with_body : Recorded → State → Option Text → State × Option Reply
unfolding answered answer text_eq
with_body r s none = (s, none)
with_body r s (some body) =
    if text_eq r.path silent_path
    then (s, none)
    else let complete = record r { body = body } in answered complete (answer complete s)

-- The body of the argument is all that the client sends after the head.
unfoldable pub serve : Recorded → State → State × Option Reply
unfolding text_eq with_body read_body content_length
serve r s =
    if text_eq r.path stalled_path
    then (s, none)
    else with_body r s (read_body r.body r.path (content_length r.headers))

header_lines : List (Text × Text) → Text
unfolding codes
header_lines [] = []
header_lines (header ∷ later) =
    header.0 ++ (codes ": " ++ (header.1 ++ (codes "\r\n" ++ header_lines later)))

-- The head of the answer, which ends with an empty line.
unfoldable pub reply_head : Reply → Text
unfolding codes decimal header_lines
reply_head reply =
    codes "HTTP/1.1 "
    ++ (reply.status
        ++ (codes "\r\ncontent-type: "
            ++ (reply.content_type
                ++ (codes "\r\ncontent-length: "
                    ++ (decimal (length reply.body)
                        ++ (codes "\r\nconnection: close\r\n"
                            ++ (header_lines reply.extra ++ codes "\r\n")))))))
