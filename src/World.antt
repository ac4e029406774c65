-- ===== src/World.antt =====
-- The client as one task sees it. `World` is the state that the tasks of a client share
-- (src/client.rs `GrindrClient`, src/rest.rs `InnerClient`); `Env` is what the model does not
-- decide: the libraries, the readings of the clocks, the answers of the server, and what other tasks
-- do whenever this one waits. Both are indexed by `turn`, the number of waits so far.
pub mod Yields
pub mod Quiet
use grindr_rs.Prelude.{
  ◌≡◌, refl, arith, arith, ◌≡◌, ℕ, suc, Option, none, some, List, [], ◌∷◌, Text, ◌⊎◌,
}
use grindr_rs.Prelude.Int.{ℤ}
use grindr_rs.Error.{GrindrError, WreqError, Result, ok, err}
use grindr_rs.Codec.{Codec}
use grindr_rs.Device.{DeviceInfo}
use grindr_rs.Headers.{HeaderLib, Header}
use grindr_rs.Signing.{Crypto, DeviceKey, DeviceSigningKey, from_stored}
use grindr_rs.Auth.Session.{
  SessionResponse, ThirdPartyAuthResponse, Assignment, AuthBody, Authorization,
}
use grindr_rs.Auth.Claims.{JwtLib}
use grindr_rs.Auth.State.{AuthState, Op, apply}

-- What one exchange of bytes comes to: no response, or a status, a `Date` header and a body that
-- arrives or fails.
pub data Wire : Type 0 where
  failed : WreqError → Wire
  replied : ℕ → Option Text → WreqError ⊎ Text → Wire

-- The same for a streamed upload: what its watchdog returned, the error of its source, and the
-- body, `none` if it did not arrive within the call timeout.
pub record Upload : Type 0 where
  pub guarded : Result (ℕ × Option Text)
  pub source_error : Option Text
  pub body : Option (WreqError ⊎ Text)

-- `Timeouts`, in milliseconds.
pub record Timeouts : Type 0 where
  pub read : ℕ
  pub upload : ℕ
  pub stall : ℕ
  pub media : ℕ
  pub media_body : ℕ

-- What other tasks do, in atomic steps: a rotation of the device also drops the key, in a step of its
-- own.
pub data Act : Type 0 where
  on_auth : Op → Act
  drop_key : Act
  take_key : DeviceSigningKey → Act
  rotate : DeviceInfo → Text → Act

pub record Env : Type 1 where
  pub codec : Codec
  pub crypto : Crypto
  pub jwt : JwtLib
  pub header : HeaderLib
  pub read_session : Text → Option SessionResponse
  pub read_third_party : Text → Option ThirdPartyAuthResponse
  pub read_assignments : Text → Option (List Assignment)
  pub read_challenge : Text → Option Text
  pub read_reject : Text → Option Text
  pub read_date : Text → Option ℕ
  pub auth_json : AuthBody → Text ⊎ Text
  pub register_json : Text → Text → Text → Text ⊎ Text
  pub timeouts : Timeouts
  pub wire : ℕ → Wire
  pub upload : ℕ → Upload
  pub others : ℕ → List Act
  pub unix : ℕ → ℕ
  pub instant : ℕ → ℕ
  pub local_ms : ℕ → ℕ
  pub nonce : ℕ → Text
  pub fresh_key : ℕ → Crypto.Key crypto
  pub captcha : ℕ → Option Text

-- A request that left, with the authorization it was made under.
pub record Sent : Type 0 where
  pub method : Text
  pub path : Text
  pub headers : List Header
  pub body : Text
  pub authorization : Option Authorization

pub record World (env : Env) : Type 0 where
  pub turn : ℕ
  pub auth : AuthState
  pub signing : Option (DeviceKey env.crypto)
  pub signing_watch : Option DeviceSigningKey
  pub server_offset_ms : ℤ
  pub device : DeviceInfo
  pub user_agent : Text
  pub sent : List Sent

-- A computation that may fail; its effects on the world stay if it does.
abbrev pub M : Env → Type 0 → Type 0
M env A = World env → Result A × World env

module _ {env : Env} where
  abbrev pub act : Act → World env → World env
  act (on_auth op) w = record w { auth = apply op w.auth }
  act drop_key w = record w { signing = none; signing_watch = none }
  act (take_key stored) w = elim (from_stored env.crypto stored) [
    | none ↦ w
    | some key ↦ record w { signing = some key; signing_watch = some stored }
  ]
  act (rotate device user_agent) w = record w { device = device; user_agent = user_agent }

  unfoldable pub act_all : List Act → World env → World env
  act_all [] w = w
  act_all (a ∷ acts) w = act_all acts (act a w)

  -- An `await`: other tasks run, and the next turn begins.
  unfoldable pub wait : World env → World env
  unfolding act_all
  wait w = record (act_all (env.others w.turn) w) { turn = suc w.turn }

  unfoldable pub await : M env (Unit {0})
  unfolding wait
  await w = (ok tt, wait w)

module _ {env : Env} {A : Type 0} where
  abbrev pub pure : A → M env A
  pure a w = (ok a, w)

  abbrev pub fail : GrindrError → M env A
  fail e w = (err e, w)

  abbrev pub lift : Result A → M env A
  lift r w = (r, w)

  abbrev pub get : (World env → A) → M env A
  get f w = (ok (f w), w)

  -- A `match` on the result of a call.
  abbrev pub attempted : M env A → M env (Result A)
  attempted m w = (ok (m w).0, (m w).1)

abbrev pub modify : {env : Env} → (World env → World env) → M env (Unit {0})
modify f w = (ok tt, f w)

module _ {env : Env} {A B : Type 0} where
  abbrev pub bind_result : Result A × World env → (A → M env B) → Result B × World env
  bind_result (ok a, w) k = k a w
  bind_result (err e, w) k = (err e, w)

  infixl 5 ◌>>=◌
  unfoldable pub ◌>>=◌ : M env A → (A → M env B) → M env B
  ◌>>=◌ m k w = bind_result (m w) k

infixl 5 ◌>>◌
abbrev pub ◌>>◌ : {env : Env} {B : Type 0} → M env (Unit {0}) → M env B → M env B
m >> k = m >>= λ _. k

module _ {env : Env} {A B : Type 0} where
  bind_result-eq-ok :
      (r : Result A × World env) (f : A → M env B) {b : B} {w' : World env}
      → bind_result r f ≡ (ok b, w')
      → (a : A) × (v : World env) × (r ≡ (ok a, v)) × (f a v ≡ (ok b, w'))
  bind_result-eq-ok (ok a, v) f e = (a, v, refl, e)
  bind_result-eq-ok (err x, v) f e = ground arith

  -- Inversion of a successful `do`.
  pub >>=-eq-ok :
      (m : M env A) (f : A → M env B) (w : World env) {b : B} {w' : World env}
      → (m >>= f) w ≡ (ok b, w')
      → (a : A) × (v : World env) × (m w ≡ (ok a, v)) × (f a v ≡ (ok b, w'))
  unfolding ◌>>=◌
  >>=-eq-ok m f w e = bind_result-eq-ok (m w) f e
