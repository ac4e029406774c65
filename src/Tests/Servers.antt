-- ===== src/Tests/Servers.antt =====
-- src/testserver.rs: the server between two tests.
use grindr_rs.Prelude.{List, [], ◌∷◌, Text, codes, ◌≡◌, refl, some, none, map}
use grindr_rs.TestServer.State.{Recorded, Entry, new, requests_from}
use grindr_rs.TestServer.Apart.{
  reply_to, happen, Event, queues, answers, records, happen_all, told, own_events, device_sees_own,
}
use grindr_rs.TestServer.Media.{media_reply}

abbrev queued : Entry
queued = record {
  device_id = codes "aa";
  path = codes "/v3/bootstrap";
  replies = (codes "503 Busy", codes "{}") ∷ [];
}

abbrev request_of : Text → Text → Recorded
request_of info path = record {
  method = codes "GET";
  path = path;
  headers = (codes "l-device-info", info) ∷ [];
  body = [];
}

abbrev first_test : Recorded
first_test = request_of (codes "aa;GLOBAL") (codes "/v3/bootstrap?x=1")

abbrev second_test : Recorded
second_test = request_of (codes "bb;GLOBAL") (codes "/v3/bootstrap")

abbrev interleaved : List Event
interleaved =
    queues queued
    ∷ answers second_test
    ∷ answers first_test
    ∷ records second_test
    ∷ answers first_test
    ∷ records first_test
    ∷ records first_test
    ∷ []

-- The reply that is queued for the first device, and then the one of the path.
told-run :
    map
      (λ reply. elim reply [ none ↦ [] | some r ↦ r.status ])
      (told 2 (codes "aa") interleaved new)
    ≡ codes "503 Busy" ∷ codes "200 OK" ∷ []
unfolding happen happen_all reply_to
told-run = refl

device_sees_own_example :
    (told 2 (codes "aa") interleaved new
      ≡ told 2 (codes "aa") (own_events 2 (codes "aa") interleaved) new)
    × (requests_from (codes "aa") (happen_all interleaved new)
        ≡ requests_from (codes "aa") (happen_all (own_events 2 (codes "aa") interleaved) new))
unfolding codes
device_sees_own_example =
    device_sees_own 2 (codes "aa") interleaved refl (refl, (tt, (tt, (tt, (tt, (tt, (tt, tt)))))))

-- A range of an empty file is none.
empty-run : media_reply (codes "0") ((codes "range", codes "bytes=0-0") ∷ []) ≡ none
unfolding media_reply
empty-run = refl
