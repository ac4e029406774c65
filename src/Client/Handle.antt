-- ===== src/Client/Handle.antt =====
-- src/client.rs `GrindrClient`: how a client comes into being, and what its clones share besides the
-- world: the task of the websocket and the provider of captcha tokens, whose type is a parameter.
pub mod Once
use grindr_rs.Prelude.{
  ℕ, zero, suc, Bool, true, false, Option, none, some, List, [], ◌∷◌, length, if◌then◌else◌, ◌≡◌,
  refl, arith,
}
use grindr_rs.Prelude.Int.{pos}
use grindr_rs.Error.{Result, ok, err, ◌>>=◌}
use grindr_rs.Device.{DeviceInfo}
use grindr_rs.Auth.Session.{Session}
use grindr_rs.Auth.State.{AuthState, new}
use grindr_rs.World.{Env, World, Timeouts}
use grindr_rs.Ws.Connect.{WsConnectionState, disconnected}
use package.grindr_rs.Client.Transport.{HttpLib, Fingerprint, build_fingerprint, default_timeouts}

-- src/ws.rs `make_channels`, by the capacities of the channels and the first value of the state.
pub record WsChannels : Type 0 where
  pub event_capacity : ℕ
  pub command_capacity : ℕ
  pub state : WsConnectionState

abbrev pub make_channels : WsChannels
make_channels = record { event_capacity = 256; command_capacity = 64; state = disconnected }

pub record ClientSetup : Type 0 where
  pub device : DeviceInfo
  pub session : Option Session
  pub timeouts : Timeouts

module _ (env : Env) (lib : HttpLib) (Provider : Type 0) where
  -- `ws_started`, `ws_spawn` and the channels of the tasks that were spawned.
  pub record GrindrClient : Type 0 where
    pub world : World env
    pub fingerprint : Fingerprint lib
    pub timeouts : Timeouts
    pub captcha : Option Provider
    pub ws_started : Bool
    pub ws_spawn : Option WsChannels
    pub ws_tasks : List WsChannels

  abbrev pub first_world : Fingerprint lib → AuthState → World env
  first_world fp auth = record {
    turn = 0;
    auth = auth;
    signing = none;
    signing_watch = none;
    server_offset_ms = pos 0;
    device = fp.device;
    user_agent = fp.user_agent;
    sent = [];
  }

  unfoldable pub from_setup : ClientSetup → Result GrindrClient
  unfolding build_fingerprint new
  from_setup setup = do
    fingerprint ← build_fingerprint lib setup.device setup.timeouts
    ok (record {
      world = first_world fingerprint (new setup.session);
      fingerprint = fingerprint;
      timeouts = setup.timeouts;
      captcha = none;
      ws_started = false;
      ws_spawn = some make_channels;
      ws_tasks = [];
    })

  -- `GrindrClient::new`.
  unfoldable pub new_client : DeviceInfo → Option Session → Result GrindrClient
  unfolding from_setup
  new_client device session =
      from_setup (record { device = device; session = session; timeouts = default_timeouts })

  -- The closure of `ensure_ws_task`, which takes the parts.
  unfoldable pub spawn_parts : Option WsChannels → GrindrClient → GrindrClient
  spawn_parts none c = c
  spawn_parts (some parts) c = record c { ws_spawn = none; ws_tasks = parts ∷ c.ws_tasks }

  unfoldable pub ensure_ws_task : GrindrClient → GrindrClient
  unfolding spawn_parts
  ensure_ws_task c =
      if c.ws_started then c else spawn_parts c.ws_spawn (record c { ws_started = true })

  unfoldable pub connect : GrindrClient → GrindrClient
  unfolding ensure_ws_task
  connect c = ensure_ws_task c

  unfoldable pub connects : ℕ → GrindrClient → GrindrClient
  unfolding connect
  connects zero c = c
  connects (suc n) c = connects n (connect c)

  -- `OnceLock::set`.
  unfoldable pub set_captcha_provider : Provider → GrindrClient → GrindrClient
  set_captcha_provider provider c = elim c.captcha [
    | none ↦ record c { captcha = some provider }
    | some first ↦ c
  ]
