-- ===== src/Ws/Task.antt =====
-- src/ws.rs `spawn_ws_task`: the task of the websocket, from one wait to the next. The model does not
-- decide what the server answers, what the `select!` of the message loop yields, when the session
-- channel shows a change, and when the channels of the session and of the activity are closed.
pub mod Channel
pub mod Requests
pub mod Again
use grindr_rs.Prelude.{
  ℕ, zero, suc, Bool, Option, none, some, List, [], ◌++◌, Text, is_some, if◌then◌else◌,
}
use grindr_rs.Error.{auth, Result, ok, err}
use grindr_rs.World.{Env, World}
use package.grindr_rs.Ws.Backoff.{Pause, at_once, for_session, for_time, fresh, resumed, after_run}
use package.grindr_rs.Ws.Messages.{Input, Output, Incoming, session_token}
use package.grindr_rs.Ws.Messages
use package.grindr_rs.Ws.Connect.{Answer, Link, disconnected, rest, open_websocket}

-- Where the task waits.
pub data Phase : Type 0 where
  starting : Phase
  signed_out : Phase
  idle : Phase
  connecting : Phase
  running : Phase
  refused : Phase
  sleeping : ℕ → Phase
  stopped : Phase

-- A branch of the `select!`, as `Input` without what the loop reads of the session.
pub data Signal (Value : Type 0) : Type 0 where
  ping_tick : Option Text → Signal Value
  session_signal : Bool → Signal Value
  active_signal : Bool → Signal Value
  message : Incoming → Option Text → Signal Value
  end_of_stream : Signal Value
  stream_error : Text → Signal Value
  command : Text → Text → Value → Option Text → Signal Value
  no_senders : Signal Value

pub record Outside (Value : Type 0) : Type 0 where
  pub answer : ℕ → Answer
  pub signal : ℕ → Signal Value
  pub session_changes : ℕ → Bool
  pub closed : ℕ → Bool
  pub command_text : Text → Text → Text → Value → Text

-- `output` holds what was sent and announced, the oldest first.
pub record Task (env : Env) : Type 0 where
  pub link : Link env
  pub phase : Phase
  pub output : List (Output env.codec.Value)

module _ (env : Env) (outside : Outside env.codec.Value) where
  open outside use {answer, signal, session_changes, closed, command_text}

  unfoldable pub turn : Task env → Task env
  turn t = record t { link = rest env answer t.link }

  abbrev pub has_session : Task env → Bool
  has_session t = is_some t.link.world.auth.session

  unfoldable pub goes : Phase → Task env → Task env
  goes phase t = record t { phase = phase }

  unfoldable pub told_disconnected : Task env → Task env
  told_disconnected t = record t { link = record t.link { state = disconnected } }

  -- The check on the activity, once there is a session.
  unfoldable pub check_active : Task env → Task env
  unfolding goes told_disconnected
  check_active t =
      if t.link.world.auth.active then goes connecting t else goes idle (told_disconnected t)

  unfoldable pub begin : Task env → Task env
  unfolding check_active goes
  begin t = if has_session t then check_active t else goes signed_out t

  -- `session_rx.changed()`: the channel shows a change, or it is closed, or nothing happened yet.
  unfoldable pub on_session : Task env → Task env
  unfolding goes
  on_session t =
      if session_changes t.link.world.turn
      then goes starting t
      else if closed t.link.world.turn
      then goes stopped t
      else t

  unfoldable pub on_idle : Task env → Task env
  unfolding goes
  on_idle t =
      if t.link.world.auth.active
      then goes connecting
          (record t { link = record t.link { reconnect = resumed t.link.reconnect } })
      else if closed t.link.world.turn
      then goes stopped t
      else t

  unfoldable pub phase_after : Pause → Phase
  phase_after at_once = starting
  phase_after for_session = refused
  phase_after (for_time t) = sleeping t

  unfoldable pub conclude : Result (Unit {0}) → Task env → Task env
  unfolding goes phase_after after_run
  conclude result t =
      let (pause, reconnect) = after_run result (has_session t) t.link.reconnect in
      goes (phase_after pause) (record t { link = record t.link { reconnect = reconnect } })

  -- The `match` on the result of `connect_and_run`; an error other than `Auth` reads the session first.
  unfoldable pub after : Result (Unit {0}) → Task env → Task env
  unfolding told_disconnected conclude turn
  after (ok _) t = conclude (ok tt) (told_disconnected t)
  after (err (auth m)) t = conclude (err (auth m)) (told_disconnected t)
  after (err e) t = conclude (err e) (turn (told_disconnected t))

  -- The start of `run_message_loop`, with the token of the session.
  unfoldable pub entered : Option Text → Task env → Task env
  unfolding goes after
  entered none t = after (ok tt) t
  entered (some token) t = goes running t

  unfoldable pub enter : Task env → Task env
  unfolding entered session_token
  enter t = entered (session_token t.link.world.auth.session) t

  unfoldable pub opened : Result (Unit {0}) → Task env → Task env
  unfolding enter after turn
  opened (ok _) t = enter (turn t)
  opened (err e) t = after (err e) t

  unfoldable pub connect : Task env → Task env
  unfolding opened open_websocket
  connect t =
      let (result, link) = open_websocket env answer t.link in
      opened result (record t { link = link })

  -- What the branch reads: a command the session, after one more wait.
  unfoldable pub read_signal : Signal env.codec.Value → Task env → Input env.codec.Value × Task env
  unfolding turn
  read_signal (ping_tick failure) t = (Input.ping_due failure, t)
  read_signal (session_signal gone) t = (Input.session_changed gone t.link.world.auth.watched, t)
  read_signal (active_signal gone) t = (Input.active_changed gone t.link.world.auth.active, t)
  read_signal (message incoming failure) t = (Input.arrived incoming failure, t)
  read_signal end_of_stream t = (Input.stream_ended, t)
  read_signal (stream_error error) t = (Input.stream_failed error, t)
  read_signal (command kind ref_id payload failure) t =
      let later = turn t in
      (Input.commanded kind ref_id payload later.link.world.auth.session failure, later)
  read_signal no_senders t = (Input.commands_closed, t)

  unfoldable pub round_ends : Option (Result (Unit {0})) → Task env → Task env
  unfolding after
  round_ends none t = t
  round_ends (some result) t = after result t

  -- A round of the message loop.
  unfoldable pub round : Task env → Task env
  unfolding read_signal round_ends Messages.step
  round t =
      let (input, heard) = read_signal (signal t.link.world.turn) t in
      let (returned, output) = Messages.step env.codec command_text input in
      round_ends returned (record heard { output = heard.output ++ output })

  unfoldable pub step : Phase → Task env → Task env
  unfolding turn begin on_session on_idle connect round goes
  step starting t = begin (turn t)
  step signed_out t = on_session (turn t)
  step idle t = on_idle (turn t)
  step connecting t = connect t
  step running t = round (turn t)
  step refused t = on_session (turn t)
  step (sleeping time) t = goes starting (turn t)
  step stopped t = t

  unfoldable pub steps : ℕ → Task env → Task env
  unfolding step
  steps zero t = t
  steps (suc n) t = steps n (step t.phase t)

  -- The task as it is spawned.
  unfoldable pub spawn : World env → Task env
  spawn w = record {
    link = record { world = w; state = disconnected; reconnect = fresh; upgrades = [] };
    phase = starting;
    output = [];
  }
