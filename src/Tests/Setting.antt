-- ===== src/Tests/Setting.antt =====
-- A small server and its libraries: JSON with a code and a message, keys that are their own bytes.
use grindr_rs.Prelude.{
  ℕ, true, false, Option, none, some, [], Text, codes, starts_with, text_eq, if◌then◌else◌, inl,
  inr, refl, ltb, ◌*◌,
}
use grindr_rs.Prelude.Int.{ℤ, pos}
use grindr_rs.Error.{Result, unauthorized, GrindrError, BanInfo, BanKind}
use grindr_rs.Codec.{Codec}
use grindr_rs.Device.{DeviceInfo}
use grindr_rs.Headers.{HeaderLib}
use grindr_rs.Signing.{Crypto}
use grindr_rs.Auth.Session.{Session, SessionKind, Authorization}
use grindr_rs.Auth.Claims.{JwtLib}
use grindr_rs.World.{Env, World, Wire, replied}

pub data Json : Type 0 where
  text : Text → Json
  number : ℤ → Json
  object : ℤ → Text → Json

abbrev pub get_json : Json → Text → Option Json
get_json (object code message) key =
    if text_eq key (codes "code")
    then some (number code)
    else if text_eq key (codes "message")
    then some (text message)
    else none
get_json value key = none

abbrev pub text_json : Json → Option Text
text_json (text t) = some t
text_json value = none

abbrev pub number_json : Json → Option ℤ
number_json (number n) = some n
number_json value = none

-- A body that begins with `{` says that the account is banned.
abbrev pub codec : Codec
codec = record {
  Value = Json;
  from_slice = λ b. if starts_with (codes "{") b then some (object (pos 27) (codes "no")) else none;
  from_slice_error = λ b. codes "bad";
  get = get_json;
  as_str = text_json;
  as_i64 = number_json;
  as_bool = λ v. none;
  debug = λ t. t;
}

abbrev pub crypto : Crypto
crypto = record {
  Key = Text;
  from_bytes = some;
  to_bytes = λ k. k;
  spki = λ k. k;
  sign = λ k m. m;
  sha256 = λ b. b;
  encode = λ b. b;
  decode = some;
  from_bytes-to_bytes = λ k. refl;
  decode-encode = λ s. refl;
}

-- Every token is valid for an hour from the start.
abbrev pub jwt : JwtLib
jwt = record {
  claims = λ token.
      some
        (record { exp = 3600; restriction = none; restriction_reason = none; ban_details = none });
  reason = λ token. codes "bad";
}

abbrev pub header_lib : HeaderLib
header_lib = record { valid = λ t. true; reason = λ t. codes "bad" }

-- The answers: 401 to the first two requests that are sent, and a success from then on.
abbrev pub answers : ℕ → Wire
answers turn = replied (if ltb turn 4 then 401 else 200) none (inr (codes "ok"))

abbrev pub env_of : (ℕ → Wire) → Env
env_of wire = record {
  codec = codec;
  crypto = crypto;
  jwt = jwt;
  header = header_lib;
  read_session = λ b.
      some (record { profile_id = codes "7"; session_id = codes "new"; auth_token = codes "a2" });
  read_third_party = λ b. some (record {
    registered = true;
    authentication_response = some (record {
      profile_id = codes "7";
      session_id = codes "new";
      auth_token = codes "a2";
      third_party_user_id = codes "g";
      third_party_user_id_to_show = none;
    });
  });
  read_assignments = λ b. some [];
  read_challenge = λ b. some (codes "c");
  read_reject = λ b. none;
  read_date = λ d. none;
  auth_json = λ b. inl (codes "{}");
  register_json = λ a b c. inl (codes "{}");
  timeouts = record { read = 1; upload = 1; stall = 1; media = 1; media_body = 1 };
  wire = wire;
  upload =
      λ n. record { guarded = Result.ok (200, none); source_error = none; body = some (inr []) };
  others = λ n. [];
  unix = λ n. 100;
  instant = λ n. 1000 * n;
  local_ms = λ n. n;
  nonce = λ n. [];
  fresh_key = λ n. codes "k";
  captcha = λ n. none;
}

abbrev pub env : Env
env = env_of answers

abbrev pub calm : Env
calm = env_of (λ turn. replied 200 none (inr (codes "ok")))

abbrev pub device : DeviceInfo
device = record {
  device_type = 2;
  device_id = codes "d";
  os = codes "Android 14";
  screen_resolution = codes "1x1";
  total_ram = codes "1";
  advertising_id = codes "u";
  device_model = codes "m";
  manufacturer = codes "f";
  timezone = codes "Europe/Berlin";
  locale = codes "en_US";
  accept_language = codes "en-US";
  build_id = codes "b";
}

abbrev pub session_until : ℕ → Session
session_until expires_at = record {
  credentials = record {
    email = codes "e";
    profile_id = some (codes "7");
    auth_token = codes "a1";
    kind = SessionKind.email;
    third_party_user_id = none;
  };
  token = some (record { session_id = codes "old"; expires_at = expires_at; restriction = none });
}

abbrev pub world_of : (e : Env) → Option Session → World e
world_of e session = record {
  turn = 0;
  auth = record {
    session = session;
    sign_out_epoch = 0;
    watched = session;
    observed = true;
    events = [];
    active = true;
    refresh_gate = record {
      failures = 0;
      retry_at = none;
      reported = false;
      client_refused = false;
    };
  };
  signing = none;
  signing_watch = none;
  server_offset_ms = pos 0;
  device = device;
  user_agent = codes "ua";
  sent = [];
}

-- A client whose token is still good, and one whose token has run out.
abbrev pub fresh : World env
fresh = world_of env (some (session_until 3600))

abbrev pub stale : World calm
stale = world_of calm (some (session_until 1))

abbrev pub old_authorization : Authorization
old_authorization = record { session_id = codes "old"; profile_id = some (codes "7") }

abbrev pub new_authorization : Authorization
new_authorization = record { session_id = codes "new"; profile_id = some (codes "7") }

abbrev pub refusal : GrindrError
refusal = unauthorized (pos 401) (codes "no")

abbrev pub ban : BanInfo
ban = record {
  kind = BanKind.profile;
  code = pos 27;
  message = codes "no";
  reason = none;
  sub_reason = none;
  automated = none;
}
