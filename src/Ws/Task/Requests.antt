-- ===== src/Ws/Task/Requests.antt =====
-- src/ws.rs: when the task asks for a websocket.
use grindr_rs.Prelude.{
  ℕ, zero, suc, true, Option, none, some, ◌∷◌, ◌++◌, ◌≡◌, refl, ◌≢◌, ◌⊎◌, inl, inr, ◌∙◌, arith,
  Text,
}
use grindr_rs.Error.{auth, Result, ok, err}
use grindr_rs.World.{Env, World}
use package.grindr_rs.Ws.Backoff.{Pause, at_once, for_session, for_time, after_run}
use package.grindr_rs.Ws.Messages
use package.grindr_rs.Ws.Messages.{session_token}
use package.grindr_rs.Ws.Connect.{Upgrade, open_websocket}
use package.grindr_rs.Ws.Connect.Authorized.{Authorized, open_websocket-AtMostOne}
use package.grindr_rs.Ws.Task.{
  Signal, has_session, Phase, starting, signed_out, idle, connecting, running, refused, sleeping,
  stopped, Outside, Task, turn, goes, told_disconnected, check_active, begin, on_session, on_idle,
  phase_after, conclude, after, entered, enter, opened, connect, read_signal, round_ends, round,
  step, steps, spawn,
}

module _ (env : Env) (outside : Outside env.codec.Value) where
  abbrev Quiet : Task env → Task env → Type 0
  Quiet before t = (t.link.upgrades ≡ before.link.upgrades) × (t.phase ≢ connecting)

  -- A task that is about to connect is active.
  abbrev Ready : Task env → Type 0
  Ready t = t.phase ≡ connecting → t.link.world.auth.active ≡ true

  paused : (pause : Pause) → phase_after env outside pause ≢ connecting
  unfolding phase_after
  paused at_once e = ground arith
  paused for_session e = ground arith
  paused (for_time t) e = ground arith

  conclude-Quiet :
      (result : Result (Unit {0})) (t : Task env) → Quiet t (conclude env outside result t)
  unfolding conclude goes
  conclude-Quiet result t =
      (refl, paused (after_run result (has_session env outside t) t.link.reconnect).0)

  after-Quiet : (result : Result (Unit {0})) (t : Task env) → Quiet t (after env outside result t)
  unfolding after told_disconnected turn
  after-Quiet (ok _) t = conclude-Quiet (ok tt) (told_disconnected env outside t)
  after-Quiet (err (auth m)) t = conclude-Quiet (err (auth m)) (told_disconnected env outside t)
  after-Quiet (err e) t =
      conclude-Quiet (err e) (turn env outside (told_disconnected env outside t))

  entered-Quiet : (token : Option Text) (t : Task env) → Quiet t (entered env outside token t)
  unfolding entered goes
  entered-Quiet none t = after-Quiet (ok tt) t
  entered-Quiet (some token) t = (refl, λ e. ground arith)

  opened-Quiet : (result : Result (Unit {0})) (t : Task env) → Quiet t (opened env outside result t)
  unfolding opened enter turn
  opened-Quiet (ok _) t =
      entered-Quiet (session_token (turn env outside t).link.world.auth.session)
        (turn env outside t)
  opened-Quiet (err e) t = after-Quiet (err e) t

  round_ends-Quiet :
      (returned : Option (Result (Unit {0}))) (t : Task env)
      → t.phase ≢ connecting
      → Quiet t (round_ends env outside returned t)
  unfolding round_ends
  round_ends-Quiet none t h = (refl, h)
  round_ends-Quiet (some result) t h = after-Quiet result t

  read_signal-Quiet :
      (s : Signal env.codec.Value) (t : Task env)
      → t.phase ≢ connecting
      → Quiet t (read_signal env outside s t).1
  unfolding read_signal turn
  read_signal-Quiet s t h = ground arith

  round-Quiet : (t : Task env) → t.phase ≢ connecting → Quiet t (round env outside t)
  unfolding round
  round-Quiet t h =
      let (input, heard) = read_signal env outside (outside.signal t.link.world.turn) t in
      let here = read_signal-Quiet (outside.signal t.link.world.turn) t h in
      let result = Messages.step env.codec outside.command_text input in
      let ended =
        round_ends-Quiet result.0 (record heard { output = heard.output ++ result.1 }) here.1 in
      (ended.0 ∙ here.0, ended.1)

  -- No request, and a task that connects next is active.
  abbrev Calm : Task env → Task env → Type 0
  Calm before t = (t.link.upgrades ≡ before.link.upgrades) × Ready t

  begin-Calm : (t : Task env) → Calm t (begin env outside t)
  unfolding begin check_active goes told_disconnected
  begin-Calm t = ground arith

  on_session-Calm : (t : Task env) → t.phase ≢ connecting → Calm t (on_session env outside t)
  unfolding on_session goes
  on_session-Calm t h = ground arith

  on_idle-Calm : (t : Task env) → t.phase ≢ connecting → Calm t (on_idle env outside t)
  unfolding on_idle goes
  on_idle-Calm t h = ground arith

  -- `Requested t t'`: no request was made, or the client is active and one that is authorized was made.
  abbrev pub Requested : Task env → Task env → Type 0
  Requested t t' =
      (t'.link.upgrades ≡ t.link.upgrades)
      ⊎ ((t.link.world.auth.active ≡ true)
          × ((u : Upgrade) × (t'.link.upgrades ≡ u ∷ t.link.upgrades)
              × Authorized env outside.answer t.link u))

  connect-Requested :
      (t : Task env)
      → t.link.world.auth.active ≡ true
      → Requested t (connect env outside t) × Ready (connect env outside t)
  unfolding connect
  connect-Requested t active =
      let (result, link) = open_websocket env outside.answer t.link in
      let quiet = opened-Quiet result (record t { link = link }) in
      (
        elim (open_websocket-AtMostOne env outside.answer t.link) [
          | inl none_made ↦ inl (quiet.0 ∙ none_made)
          | inr (u, made, authorized) ↦ inr (active, (u, quiet.0 ∙ made, authorized))
        ],
        λ e. absurd (quiet.1 e),
      )

  step-Requested :
      (p : Phase) (t : Task env)
      → t.phase ≡ p
      → Ready t
      → Requested t (step env outside p t) × Ready (step env outside p t)
  unfolding step turn goes
  step-Requested starting t e h = let c = begin-Calm (turn env outside t) in (inl c.0, c.1)
  step-Requested signed_out t e h =
      let c = on_session-Calm (turn env outside t) (λ x. ground arith) in (inl c.0, c.1)
  step-Requested idle t e h =
      let c = on_idle-Calm (turn env outside t) (λ x. ground arith) in (inl c.0, c.1)
  step-Requested connecting t e h = connect-Requested t (h e)
  step-Requested running t e h =
      let q = round-Quiet (turn env outside t) (λ x. ground arith) in (inl q.0, λ x. absurd (q.1 x))
  step-Requested refused t e h =
      let c = on_session-Calm (turn env outside t) (λ x. ground arith) in (inl c.0, c.1)
  step-Requested (sleeping time) t e h = (inl refl, λ x. ground arith)
  step-Requested stopped t e h = (inl refl, h)

  steps-Ready : (n : ℕ) (t : Task env) → Ready t → Ready (steps env outside n t)
  unfolding steps
  steps-Ready zero t h = h
  steps-Ready (suc n) t h =
      steps-Ready n (step env outside t.phase t) (step-Requested t.phase t refl h).1

  -- However far the task has come, its next step asks for no websocket, or the client is active and it
  -- asks for one: with the headers for the authorization that the session gives, and the offer of the
  -- extension exactly if the task still makes it.
  pub spawn-Requested :
      (n : ℕ) (w : World env)
      → let t = steps env outside n (spawn env outside w) in
        Requested t (step env outside t.phase t)
  unfolding spawn
  spawn-Requested n w =
      let t = steps env outside n (spawn env outside w) in
      (step-Requested t.phase t refl (steps-Ready n (spawn env outside w) (λ x. ground arith))).0
