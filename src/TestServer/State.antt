-- ===== src/TestServer/State.antt =====
-- src/testserver.rs: the requests that the server has recorded and the replies that tests have queued, the
-- state that all tests share. A map is the list of its entries, of which each lookup takes the first.
use grindr_rs.Prelude.{
  Bool, ◌&&◌, Option, none, some, List, [], ◌∷◌, ◌++◌, Text, text_eq, codes, starts_with,
  map_option, is_some_and, unwrap_or, if◌then◌else◌,
}
use package.grindr_rs.Texts.{find_first}

pub record Recorded : Type 0 where
  pub method : Text
  pub path : Text
  pub headers : List (Text × Text)
  pub body : Text

-- A status line and the text of a body.
abbrev pub Payload : Type 0
Payload = Text × Text

pub record Entry : Type 0 where
  pub device_id : Text
  pub path : Text
  pub replies : List Payload

pub record State : Type 0 where
  pub recordings : List Recorded
  pub queues : List Entry

abbrev pub new : State
new = record { recordings = []; queues = [] }

-- `Recorded::header`, and the same search of src/testserver.rs `serve`, `respond` and `media_reply`.
unfoldable pub header_of : List (Text × Text) → Text → Option Text
unfolding find_first text_eq
header_of headers name =
    map_option (λ header. header.1) (find_first (λ header. text_eq header.0 name) headers)

unfoldable pub device_info : List (Text × Text) → Text
unfolding header_of
device_info headers = unwrap_or (header_of headers (codes "l-device-info")) []

module _ (p : Recorded → Bool) where
  unfoldable pub filter : List Recorded → List Recorded
  filter [] = []
  filter (r ∷ rs) = if p r then r ∷ filter rs else filter rs

unfoldable pub requests_to : Text → State → List Recorded
unfolding filter text_eq
requests_to path s = filter (λ r. text_eq r.path path) s.recordings

unfoldable pub is_from : Text → Recorded → Bool
unfolding header_of starts_with
is_from device_id r =
    is_some_and (header_of r.headers (codes "l-device-info")) λ info. starts_with device_id info

unfoldable pub requests_from : Text → State → List Recorded
unfolding filter is_from
requests_from device_id s = filter (is_from device_id) s.recordings

-- The entry of the key, or a new one, with more replies at its end.
unfoldable pub extend : Entry → List Entry → List Entry
unfolding text_eq
extend queued [] = queued ∷ []
extend queued (e ∷ es) =
    if text_eq e.device_id queued.device_id && text_eq e.path queued.path
    then record e { replies = e.replies ++ queued.replies } ∷ es
    else e ∷ extend queued es

unfoldable pub queue_replies : Entry → State → State
unfolding extend
queue_replies queued s = record s { queues = extend queued s.queues }

-- `VecDeque::pop_front`: what is left, and the first.
unfoldable pub pop_front : List Payload → List Payload × Option Payload
pop_front [] = ([], none)
pop_front (reply ∷ later) = (later, some reply)

unfoldable pub is_for : Text → Text → Entry → Bool
unfolding text_eq starts_with
is_for info path e = text_eq e.path path && starts_with e.device_id info

unfoldable pub pop : Text → Text → List Entry → List Entry × Option Payload
unfolding is_for pop_front
pop info path [] = ([], none)
pop info path (e ∷ es) =
    let rest = pop info path es in
    if is_for info path e
    then (record e { replies = (pop_front e.replies).0 } ∷ es, (pop_front e.replies).1)
    else (e ∷ rest.0, rest.1)

unfoldable pub queued_reply : Text → Text → State → State × Option Payload
unfolding pop
queued_reply info path s =
    let popped = pop info path s.queues in (record s { queues = popped.0 }, popped.1)
