-- ===== src/Ws/Messages.antt =====
-- src/ws.rs `run_message_loop`: the loop on an open websocket. What its `select!` yields in each
-- round, the result of a send and the session that is read are arguments; a serialised command is
-- the parameter `command_text` of its type, id, token and payload.
pub mod Answers
pub mod Order
use grindr_rs.Prelude.{
  ℕ, Bool, true, false, ◌||◌, Option, none, some, List, [], ◌∷◌, ◌++◌, Text, codes, and_then,
  is_none, if◌then◌else◌, map_option, not,
}
use grindr_rs.Error.{GrindrError, http, Result, ok, err}
use grindr_rs.Codec.{Codec}
use grindr_rs.Auth.Session.{Session}

pub data Incoming : Type 0 where
  text : Text → Incoming
  ping : Text → Incoming
  close : Incoming
  other : Incoming

-- A branch of the `select!`. An `Option Text` that stands last is the error of the send that follows.
pub data Input (Value : Type 0) : Type 0 where
  ping_due : Option Text → Input Value
  session_changed : Bool → Option Session → Input Value
  active_changed : Bool → Bool → Input Value
  arrived : Incoming → Option Text → Input Value
  stream_ended : Input Value
  stream_failed : Text → Input Value
  commanded : Text → Text → Value → Option Session → Option Text → Input Value
  commands_closed : Input Value

-- What the loop does: a message on the websocket, or an event to the listeners.
pub data Output (Value : Type 0) : Type 0 where
  sent_ping : Output Value
  sent_pong : Text → Output Value
  sent_command : Text → Output Value
  event : Text → Value → Output Value

-- `session_token`.
unfoldable pub session_token : Option Session → Option Text
session_token session = and_then session λ s. map_option (λ t. t.session_id) s.token

module _ (codec : Codec) (command_text : Text → Text → Text → codec.Value → Text) where
  -- A round goes on or returns, after its output.
  abbrev pub Step : Type 0
  Step = Option (Result (Unit {0})) × List (Output codec.Value)

  -- `ws.send(…).await.map_err(…)?`.
  unfoldable pub send : Option Text → Output codec.Value → Step
  send none output = (none, output ∷ [])
  send (some error) output = (some (err (http error)), [])

  -- A text is an event if it is JSON with a string `type`.
  unfoldable pub event_of : Text → List (Output codec.Value)
  unfolding codes
  event_of body = elim (codec.from_slice body) [
    | none ↦ []
    | some payload ↦ elim (and_then (codec.get payload (codes "type")) codec.as_str) [
      | none ↦ []
      | some event_type ↦ event event_type payload ∷ []
    ]
  ]

  unfoldable pub step : Input codec.Value → Step
  unfolding codes
  step (ping_due failure) = send failure sent_ping
  step (session_changed closed session) =
      (if closed || is_none session then some (ok tt) else none, [])
  step (active_changed closed active) = (if closed || not active then some (ok tt) else none, [])
  step (arrived (text body) failure) = (none, event_of body)
  step (arrived (ping bytes) failure) = send failure (sent_pong bytes)
  step (arrived close failure) = (some (err (http (codes "WS connection closed by server"))), [])
  step (arrived other failure) = (none, [])
  step stream_ended = (some (err (http (codes "WS connection closed by server"))), [])
  step (stream_failed error) = (some (err (http error)), [])
  step (commanded kind ref_id payload session failure) = elim (session_token session) [
    | none ↦ (some (ok tt), [])
    | some token ↦ send failure (sent_command (command_text kind ref_id token payload))
  ]
  step commands_closed = (some (ok tt), [])

  -- The loop on a row of inputs: `none` is a loop that still runs.
  unfoldable pub loop : List (Input codec.Value) → Step
  unfolding step
  loop [] = (none, [])
  loop (input ∷ inputs) =
      let rest = loop inputs in
      let (returned, output) = step input in
      elim returned [ some result ↦ (some result, output) | none ↦ (rest.0, output ++ rest.1) ]

  -- `run_message_loop`, with the session that it reads first.
  unfoldable pub run_message_loop : Option Session → List (Input codec.Value) → Step
  unfolding loop session_token
  run_message_loop session inputs =
      if is_none (session_token session) then (some (ok tt), []) else loop inputs
