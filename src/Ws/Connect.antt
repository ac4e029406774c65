-- ===== src/Ws/Connect.antt =====
-- src/ws.rs `connect_and_run` up to the open websocket, and the channels of the task. The websocket
-- of the HTTP library is known by what it answers.
pub mod Authorized
use grindr_rs.Prelude.{
  ℕ, Bool, true, false, Option, none, some, List, [], ◌∷◌, ◌++◌, Text, codes, if◌then◌else◌,
}
use grindr_rs.Error.{GrindrError, http, Result, ok, err}
use grindr_rs.Headers.{Header, build}
use grindr_rs.World.{Env, World, wait}
use grindr_rs.Auth.Session.{Authorization, authorization_header}
use grindr_rs.Auth.Calls.Authorize.{authorize}
use package.grindr_rs.Ws.Backoff.{Reconnect, deflate_answer}

abbrev pub ws_url : Text
ws_url = codes "wss://grindr.mobi/v1/ws"

abbrev pub ws_max_message_bytes : ℕ
ws_max_message_bytes = 1_048_576

abbrev pub sec_websocket_extensions : Text
sec_websocket_extensions = codes "sec-websocket-extensions"

abbrev pub okhttp_ws_extensions : Text
okhttp_ws_extensions = codes "permessage-deflate"

pub data WsConnectionState : Type 0 where
  disconnected : WsConnectionState
  connected : WsConnectionState

-- A request for a websocket.
pub record Upgrade : Type 0 where
  pub url : Text
  pub max_message_size : ℕ
  pub max_frame_size : ℕ
  pub headers : List Header

-- What it comes to: the text of an error, or a response that names extensions or not, with the
-- text of the error if it cannot be made a websocket.
pub data Answer : Type 0 where
  unreachable : Text → Answer
  replied : Bool → Option Text → Answer

-- The client with its websocket task: `state_tx`, the variables of the task, and the requests that
-- were made, the newest first.
pub record Link (env : Env) : Type 0 where
  pub world : World env
  pub state : WsConnectionState
  pub reconnect : Reconnect
  pub upgrades : List Upgrade

unfoldable pub upgrade : List Header → Bool → Upgrade
unfolding codes
upgrade items offer_deflate = record {
  url = ws_url;
  max_message_size = ws_max_message_bytes;
  max_frame_size = ws_max_message_bytes;
  headers =
      items
      ++ (if offer_deflate then (sec_websocket_extensions, okhttp_ws_extensions) ∷ [] else []);
}

module _ (env : Env) (answer : ℕ → Answer) where
  -- An `await` of the task.
  abbrev pub rest : Link env → Link env
  rest l = record l { world = wait l.world }

  -- `into_websocket`, after which the listeners are told.
  unfoldable pub into_websocket : Option Text → Link env → Result (Unit {0}) × Link env
  unfolding codes
  into_websocket (some e) l = (err (http (codes "WS upgrade failed: " ++ e)), l)
  into_websocket none l = (ok tt, record l { state = connected })

  -- After the check of the extension that was offered.
  unfoldable pub checked :
      Result (Unit {0}) × Reconnect → Option Text → Link env → Result (Unit {0}) × Link env
  unfolding into_websocket
  checked (err e, reconnect) failure l = (err e, record l { reconnect = reconnect })
  checked (ok _, reconnect) failure l =
      into_websocket failure (rest (record l { reconnect = reconnect }))

  unfoldable pub read_answer : Answer → Link env → Result (Unit {0}) × Link env
  unfolding codes checked deflate_answer
  read_answer (unreachable e) l = (err (http (codes "WS connect failed: " ++ e)), l)
  read_answer (replied negotiated failure) l =
      checked (deflate_answer negotiated l.reconnect) failure l

  -- The request leaves at one turn; the response is there at the next.
  unfoldable pub send_upgrade : List Header → Link env → Result (Unit {0}) × Link env
  unfolding upgrade read_answer
  send_upgrade items l =
      read_answer (answer l.world.turn)
        (rest (record l { upgrades = upgrade items l.reconnect.offer_deflate ∷ l.upgrades }))

  unfoldable pub with_headers : Result (List Header) → Link env → Result (Unit {0}) × Link env
  unfolding send_upgrade
  with_headers (err e) l = (err e, l)
  with_headers (ok items) l = send_upgrade items l

  abbrev pub upgrade_headers : Authorization → World env → Result (List Header)
  upgrade_headers a w =
      build env.header w.device w.user_agent (some (authorization_header a)) (some (codes "[FREE]"))

  -- The rest of `connect_and_run` after `authorize`; the fingerprint is read after a wait.
  unfoldable pub with_authorization : Result Authorization → Link env → Result (Unit {0}) × Link env
  unfolding with_headers codes
  with_authorization (err e) l = (err e, l)
  with_authorization (ok a) l = with_headers (upgrade_headers a (rest l).world) (rest l)

  unfoldable pub open_websocket : Link env → Result (Unit {0}) × Link env
  unfolding with_authorization
  open_websocket l =
      let (authorized, after) = authorize env l.world in
      with_authorization authorized (record l { world = after })
