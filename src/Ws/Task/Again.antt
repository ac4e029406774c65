-- ===== src/Ws/Task/Again.antt =====
-- src/ws.rs: how soon the task asks for a websocket again.
use grindr_rs.Prelude.{
  ◌++◌, ◌≢◌, ℕ, ◌≤◌, true, some, is_some, ◌≡◌, refl, ap, ◌∙◌, ◌⊎◌, inl, inr, arith, Text,
  Option-cases,
}
use grindr_rs.Error.{auth, Result, ok, err}
use grindr_rs.World.{Env, World, wait}
use grindr_rs.World.Quiet.{IsQuiet, quiet_wait}
use package.grindr_rs.Ws.Backoff.{after_run, after_error}
use package.grindr_rs.Ws.Messages
use package.grindr_rs.Ws.Messages.{Input, send}
use package.grindr_rs.Ws.Task.{
  starting, connecting, running, sleeping, Signal, Outside, Task, turn, goes, told_disconnected,
  check_active, begin, phase_after, conclude, after, read_signal, round_ends, round, step, steps,
}

module _ (env : Env) (outside : Outside env.codec.Value) (quiet : IsQuiet env) where
  -- The client is signed in and active.
  abbrev pub Awake : Task env → Type 0
  Awake t = (is_some t.link.world.auth.session ≡ true) × (t.link.world.auth.active ≡ true)

  same_auth : (w : World env) → (wait w).auth ≡ w.auth
  same_auth w = ap (λ v. v.auth) (quiet_wait env w quiet)

  turn-Awake : (t : Task env) → Awake t → Awake (turn env outside t)
  unfolding turn
  turn-Awake t h = rw (same_auth t.link.world) h

  read_signal-Awake :
      (s : Signal env.codec.Value) (t : Task env) → Awake t → Awake (read_signal env outside s t).1
  unfolding read_signal
  read_signal-Awake (Signal.command kind ref_id payload failure) t h = turn-Awake t h
  read_signal-Awake s t h = h

  -- The message loop fails with no error of the authorization.
  no_auth :
      (input : Input env.codec.Value) (m : Text)
      → ¬ ((Messages.step env.codec outside.command_text input).0 ≡ some (err (auth m)))
  unfolding Messages.step send
  no_auth input m e = ground arith

  abbrev Soon : Task env → Type 0
  Soon t = Awake t × ((t.phase ≡ starting) ⊎ ((d : ℕ) × (t.phase ≡ sleeping d)))

  after-Soon :
      (result : Result (Unit {0})) (t : Task env)
      → Awake t
      → ((m : Text) → ¬ (result ≡ err (auth m)))
      → Soon (after env outside result t)
  unfolding after conclude goes told_disconnected phase_after after_run after_error
  after-Soon (ok _) t h other = (h, inl refl)
  after-Soon (err (auth m)) t h other = absurd (other m refl)
  after-Soon (err e) t h other =
      let awake = turn-Awake t h in (awake, rw awake.0 (inr (t.link.reconnect.backoff, refl)))

  begin-connecting : (t : Task env) → Awake t → (begin env outside t).phase ≡ connecting
  unfolding begin check_active goes
  begin-connecting t h = rw (h.0, h.1) refl

  starting-connecting :
      (t : Task env)
      → Awake t
      → t.phase ≡ starting
      → (step env outside t.phase t).phase ≡ connecting
  unfolding step
  starting-connecting t h e = rw e (begin-connecting (turn env outside t) (turn-Awake t h))

  sleeping-starting :
      (t : Task env) (d : ℕ)
      → Awake t
      → t.phase ≡ sleeping d
      → ((step env outside t.phase t).phase ≡ starting) × Awake (step env outside t.phase t)
  unfolding step goes
  sleeping-starting t d h e = rw e (refl, turn-Awake t h)

  -- Connecting after one step or two.
  abbrev pub Connects : ℕ → Task env → Type 0
  Connects limit t = (k : ℕ) × (k ≤ limit) × ((steps env outside k t).phase ≡ connecting)

  Soon-Connects : (t : Task env) → Soon t → Connects 2 t
  unfolding steps
  Soon-Connects t (h, inl e) = (1, omega arith, starting-connecting t h e)
  Soon-Connects t (h, inr (d, e)) =
      let (now_starting, awake) = sleeping-starting t d h e in
      (2, omega arith, starting-connecting (step env outside t.phase t) awake now_starting)

  round_ends-Soon :
      (input : Input env.codec.Value) (t : Task env)
      → Awake t
      → t.phase ≡ running
      → let returned = (Messages.step env.codec outside.command_text input).0 in
        (round_ends env outside returned t).phase ≢ running
        → Soon (round_ends env outside returned t)
  unfolding round_ends
  round_ends-Soon input t h on over =
      elim (Option-cases (Messages.step env.codec outside.command_text input).0) [
        | inl goes_on ↦ absurd (over (rw goes_on on))
        | inr (result, returned) ↦
            rw returned (after-Soon result t h (λ m e. no_auth input m (returned ∙ ap some e)))
      ]

  read_signal-phase :
      (s : Signal env.codec.Value) (t : Task env) → (read_signal env outside s t).1.phase ≡ t.phase
  unfolding read_signal turn
  read_signal-phase s t = ground arith

  round-Soon :
      (t : Task env)
      → Awake t
      → t.phase ≡ running
      → (round env outside t).phase ≢ running
      → Soon (round env outside t)
  unfolding round
  round-Soon t h on over =
      let s = outside.signal t.link.world.turn in
      let (input, heard) = read_signal env outside s t in
      let output = heard.output ++ (Messages.step env.codec outside.command_text input).1 in
      round_ends-Soon input (record heard { output = output }) (read_signal-Awake s t h)
        (read_signal-phase s t ∙ on) over

  -- If the client is signed in and active and no other task is at work, a message loop that ends, for
  -- whatever reason, is followed by another attempt to connect, one or two steps later.
  pub ended-Connects :
      (t : Task env)
      → Awake t
      → t.phase ≡ running
      → (step env outside running t).phase ≢ running
      → Connects 2 (step env outside running t)
  unfolding step
  ended-Connects t h on over =
      Soon-Connects (round env outside (turn env outside t))
        (round-Soon (turn env outside t) (turn-Awake t h) on over)
