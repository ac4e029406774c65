-- ===== src/Tests/Sockets.antt =====
-- Instances of the rules of the websocket.
use grindr_rs.Prelude.{true, false, none, some, List, [], ◌∷◌, ◌++◌, Text, codes, ◌≡◌, refl}
use grindr_rs.Prelude.Int.{pos}
use grindr_rs.Error.{http, Result, err}
use grindr_rs.Ws.Backoff.{Round}
use grindr_rs.Ws.Messages.{
  Input, ping_due, stream_ended, commanded, session_token, run_message_loop, loop, step, send,
}
use grindr_rs.Ws.Messages.Answers.{Answered, run_message_loop-Answered}
use package.grindr_rs.Tests.Setting.{Json, object, codec, session_until}

abbrev lost : Round
lost = record {
  was_idle = false;
  negotiated = none;
  result = err (http (codes "lost"));
  has_session = true;
}

abbrev rounds : List Round
rounds = lost ∷ lost ∷ lost ∷ lost ∷ lost ∷ lost ∷ []

abbrev command_text : Text → Text → Text → Json → Text
command_text kind ref_id token payload = kind ++ token

abbrev inputs : List (Input Json)
inputs =
    ping_due none
    ∷ commanded (codes "a") (codes "1") (object (pos 1) []) (some (session_until 9)) none
    ∷ stream_ended
    ∷ ping_due none
    ∷ []

abbrev closed : Result (Unit {0})
closed = err (http (codes "WS connection closed by server"))

loop-run : (run_message_loop codec command_text (some (session_until 9)) inputs).0 ≡ some closed
unfolding run_message_loop loop step send session_token
loop-run = refl

run_message_loop-Answered_example :
    Answered codec command_text inputs closed
      (run_message_loop codec command_text (some (session_until 9)) inputs).1
unfolding session_token
run_message_loop-Answered_example =
    run_message_loop-Answered codec command_text (some (session_until 9)) _ inputs closed refl
      loop-run
