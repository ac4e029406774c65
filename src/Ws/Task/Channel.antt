-- ===== src/Ws/Task/Channel.antt =====
-- src/ws.rs: what the connection state tells while the task runs.
use grindr_rs.Prelude.{
  ap, sym, ◌∙◌, Text, ℕ, zero, suc, ◌++◌, Option, none, some, List, ◌≡◌, refl, arith,
}
use grindr_rs.Error.{auth, Result, ok, err}
use grindr_rs.Headers.{Header}
use grindr_rs.World.{Env, World}
use grindr_rs.Auth.Session.{Authorization}
use grindr_rs.Auth.Calls.Authorize.{authorize}
use package.grindr_rs.Ws.Backoff.{
  Reconnect, Pause, at_once, for_session, for_time, after_run, deflate_answer,
}
use package.grindr_rs.Ws.Messages
use package.grindr_rs.Ws.Messages.{session_token}
use package.grindr_rs.Ws.Connect.{
  checked, Answer, Link, WsConnectionState, connected, disconnected, rest, into_websocket,
  read_answer, send_upgrade, with_headers, with_authorization, open_websocket,
}
use package.grindr_rs.Ws.Task.{
  entered, has_session, Signal, Phase, starting, signed_out, idle, connecting, running, refused,
  sleeping, stopped, Outside, Task, turn, goes, told_disconnected, check_active, begin, on_session,
  on_idle, phase_after, conclude, after, enter, opened, connect, read_signal, round_ends, round,
  step, steps, spawn,
}

abbrev pub state_of : Phase → WsConnectionState
state_of running = connected
state_of phase = disconnected

module _ (env : Env) (answer : ℕ → Answer) where
  -- A websocket that is open was announced.
  abbrev Announced : Result (Unit {0}) × Link env → Type 0
  Announced (ok _, l) = l.state ≡ connected
  Announced (err e, l) = Unit

  into_websocket-Announced :
      (failure : Option Text) (l : Link env) → Announced (into_websocket env answer failure l)
  unfolding into_websocket
  into_websocket-Announced none l = refl
  into_websocket-Announced (some e) l = tt

  checked-Announced :
      (r : Result (Unit {0}) × Reconnect) (failure : Option Text) (l : Link env)
      → Announced (checked env answer r failure l)
  unfolding checked
  checked-Announced (err e, r) failure l = tt
  checked-Announced (ok _, r) failure l =
      into_websocket-Announced failure (rest env answer (record l { reconnect = r }))

  read_answer-Announced : (a : Answer) (l : Link env) → Announced (read_answer env answer a l)
  unfolding read_answer deflate_answer
  read_answer-Announced (Answer.unreachable e) l = tt
  read_answer-Announced (Answer.replied negotiated failure) l =
      checked-Announced (deflate_answer negotiated l.reconnect) failure l

  with_headers-Announced :
      (built : Result (List Header)) (l : Link env) → Announced (with_headers env answer built l)
  unfolding with_headers send_upgrade
  with_headers-Announced (err e) l = tt
  with_headers-Announced (ok items) l = read_answer-Announced (answer l.world.turn) _

  with_authorization-Announced :
      (r : Result Authorization) (l : Link env) → Announced (with_authorization env answer r l)
  unfolding with_authorization
  with_authorization-Announced (err e) l = tt
  with_authorization-Announced (ok a) l = with_headers-Announced _ (rest env answer l)

  open_websocket-Announced : (l : Link env) → Announced (open_websocket env answer l)
  unfolding open_websocket
  open_websocket-Announced l = with_authorization-Announced (authorize env l.world).0 _

module _ (env : Env) (outside : Outside env.codec.Value) where
  -- The connection state is `Connected` exactly while the message loop runs.
  abbrev pub IsTold : Task env → Type 0
  IsTold t = t.link.state ≡ state_of t.phase

  pause-told : (pause : Pause) → state_of (phase_after env outside pause) ≡ disconnected
  unfolding phase_after
  pause-told at_once = refl
  pause-told for_session = refl
  pause-told (for_time t) = refl

  conclude-IsTold :
      (result : Result (Unit {0})) (t : Task env)
      → t.link.state ≡ disconnected
      → IsTold (conclude env outside result t)
  unfolding conclude goes
  conclude-IsTold result t h =
      h ∙ sym (pause-told (after_run result (has_session env outside t) t.link.reconnect).0)

  after-IsTold : (result : Result (Unit {0})) (t : Task env) → IsTold (after env outside result t)
  unfolding after told_disconnected turn
  after-IsTold (ok _) t = conclude-IsTold (ok tt) (told_disconnected env outside t) refl
  after-IsTold (err (auth m)) t =
      conclude-IsTold (err (auth m)) (told_disconnected env outside t) refl
  after-IsTold (err e) t =
      conclude-IsTold (err e) (turn env outside (told_disconnected env outside t)) refl

  entered-IsTold :
      (token : Option Text) (t : Task env)
      → t.link.state ≡ connected
      → IsTold (entered env outside token t)
  unfolding entered goes
  entered-IsTold none t h = after-IsTold (ok tt) t
  entered-IsTold (some token) t h = h

  opened-IsTold :
      (r : Result (Unit {0}) × Link env) (t : Task env)
      → Announced env outside.answer r
      → IsTold (opened env outside r.0 (record t { link = r.1 }))
  unfolding opened enter turn
  opened-IsTold (ok _, l) t h =
      let open_now = turn env outside (record t { link = l }) in
      entered-IsTold (session_token open_now.link.world.auth.session) open_now h
  opened-IsTold (err e, l) t h = after-IsTold (err e) (record t { link = l })

  round_ends-IsTold :
      (returned : Option (Result (Unit {0}))) (t : Task env)
      → t.phase ≡ running
      → IsTold t
      → IsTold (round_ends env outside returned t)
  unfolding round_ends
  round_ends-IsTold none t on h = h
  round_ends-IsTold (some result) t on h = after-IsTold result t

  read_signal-same :
      (s : Signal env.codec.Value) (t : Task env)
      → ((read_signal env outside s t).1.phase ≡ t.phase)
        × ((read_signal env outside s t).1.link.state ≡ t.link.state)
  unfolding read_signal turn
  read_signal-same s t = ground arith

  begin-IsTold : (t : Task env) → t.link.state ≡ disconnected → IsTold (begin env outside t)
  unfolding begin check_active goes told_disconnected
  begin-IsTold t h = ground arith

  on_session-IsTold :
      (t : Task env) → t.link.state ≡ disconnected → IsTold t → IsTold (on_session env outside t)
  unfolding on_session goes
  on_session-IsTold t h told = ground arith

  on_idle-IsTold :
      (t : Task env) → t.link.state ≡ disconnected → IsTold t → IsTold (on_idle env outside t)
  unfolding on_idle goes
  on_idle-IsTold t h told = ground arith

  round-IsTold :
      (t : Task env) → t.phase ≡ running → t.link.state ≡ connected → IsTold (round env outside t)
  unfolding round
  round-IsTold t on h =
      let (input, heard) = read_signal env outside (outside.signal t.link.world.turn) t in
      let same = read_signal-same (outside.signal t.link.world.turn) t in
      let result = Messages.step env.codec outside.command_text input in
      round_ends-IsTold result.0 (record heard { output = heard.output ++ result.1 }) (same.0 ∙ on)
        (same.1 ∙ h ∙ sym (ap state_of (same.0 ∙ on)))

  step-IsTold :
      (p : Phase) (t : Task env)
      → t.phase ≡ p
      → t.link.state ≡ state_of p
      → IsTold (step env outside p t)
  unfolding step turn connect goes
  step-IsTold starting t e h = begin-IsTold (turn env outside t) h
  step-IsTold signed_out t e h = on_session-IsTold (turn env outside t) h (h ∙ sym (ap state_of e))
  step-IsTold idle t e h = on_idle-IsTold (turn env outside t) h (h ∙ sym (ap state_of e))
  step-IsTold connecting t e h =
      opened-IsTold (open_websocket env outside.answer t.link) t
        (open_websocket-Announced env outside.answer t.link)
  step-IsTold running t e h = round-IsTold (turn env outside t) e h
  step-IsTold refused t e h = on_session-IsTold (turn env outside t) h (h ∙ sym (ap state_of e))
  step-IsTold (sleeping time) t e h = h
  step-IsTold stopped t e h = h ∙ sym (ap state_of e)

  steps-IsTold : (n : ℕ) (t : Task env) → IsTold t → IsTold (steps env outside n t)
  unfolding steps
  steps-IsTold zero t h = h
  steps-IsTold (suc n) t h =
      steps-IsTold n (step env outside t.phase t) (step-IsTold t.phase t refl h)

  -- However far the task has come, whatever the server sends and the other tasks do, the connection
  -- state is `Connected` exactly while the message loop runs.
  pub spawn-IsTold : (n : ℕ) (w : World env) → IsTold (steps env outside n (spawn env outside w))
  unfolding spawn
  spawn-IsTold n w = steps-IsTold n (spawn env outside w) refl
