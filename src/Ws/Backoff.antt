-- ===== src/Ws/Backoff.antt =====
-- src/ws.rs `spawn_ws_task`: how the loop goes on after a connection, and how long it waits. A time
-- is a number of milliseconds.
pub mod Bounds
use grindr_rs.Prelude.{
  ℕ, ◌*◌, min, Bool, true, false, not, ◌&&◌, Option, none, some, List, [], ◌∷◌, if◌then◌else◌,
  codes, Text,
}
use grindr_rs.Error.{GrindrError, auth, http, Result, ok, err}

-- The variables of the task.
pub record Reconnect : Type 0 where
  pub backoff : ℕ
  pub offer_deflate : Bool

abbrev pub first_backoff : ℕ
first_backoff = 1_000

abbrev pub max_backoff : ℕ
max_backoff = 30_000

-- What the task waits for before it goes on.
pub data Pause : Type 0 where
  at_once : Pause
  for_session : Pause
  for_time : ℕ → Pause

unfoldable pub fresh : Reconnect
fresh = record { backoff = first_backoff; offer_deflate = true }

-- The wait of an idle client for its return.
unfoldable pub resumed : Reconnect → Reconnect
resumed r = record r { backoff = first_backoff }

unfoldable pub after_error : Bool → Reconnect → Pause × Reconnect
after_error has_session r =
    if has_session
    then (for_time r.backoff, record r { backoff = min (r.backoff * 2) max_backoff })
    else (at_once, record r { backoff = first_backoff })

-- The `match` on the result of `connect_and_run`; `has_session` is read after an error.
unfoldable pub after_run : Result (Unit {0}) → Bool → Reconnect → Pause × Reconnect
unfolding after_error
after_run (ok _) has_session r = (at_once, record r { backoff = first_backoff })
after_run (err (auth m)) has_session r = (for_session, record r { backoff = first_backoff })
after_run (err e) has_session r = after_error has_session r

-- The check of `connect_and_run` on the response: an extension that was offered and taken is not
-- offered again.
unfoldable pub deflate_answer : Bool → Reconnect → Result (Unit {0}) × Reconnect
unfolding codes
deflate_answer negotiated r =
    if r.offer_deflate && negotiated
    then (
      err (http (codes "server negotiated permessage-deflate; retrying without the offer")),
      record r { offer_deflate = false },
    )
    else (ok tt, r)

-- A round of the loop: an idle client's wait, the answer to the offer, a connection and its result.
pub record Round : Type 0 where
  pub was_idle : Bool
  pub negotiated : Option Bool
  pub result : Result (Unit {0})
  pub has_session : Bool

unfoldable pub connect : Round → Reconnect → Result (Unit {0}) × Reconnect
unfolding deflate_answer
connect round r = elim round.negotiated [
  | none ↦ (round.result, r)
  | some negotiated ↦ elim (deflate_answer negotiated r).0 [
    | ok _ ↦ (round.result, (deflate_answer negotiated r).1)
    | err e ↦ (err e, (deflate_answer negotiated r).1)
  ]
]

unfoldable pub go_round : Round → Reconnect → Pause × Reconnect
unfolding resumed connect after_run
go_round round r =
    let (result, after) = connect round (if round.was_idle then resumed r else r) in
    after_run result round.has_session after

-- The pauses of a row of rounds.
unfoldable pub pauses : List Round → Reconnect → List Pause
unfolding go_round
pauses [] r = []
pauses (round ∷ rounds) r = let (pause, after) = go_round round r in pause ∷ pauses rounds after
