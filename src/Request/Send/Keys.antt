-- ===== src/Request/Send/Keys.antt =====
-- src/rest.rs: whose device key the client holds.
use grindr_rs.Prelude.{
  text_eq, not, ◌≢◌, Option, true, false, not, text_eq, none, Option, some, Text, ◌⊎◌, ◌≢◌,
  text_eq_iff, Bool-cases, sym, ◌∙◌, eq_of_text_eq, ◌≡◌, refl, arith, inl, inr, Option-cases,
}
use grindr_rs.Error.{ok}
use grindr_rs.Signing.{from_stored, export, DeviceKey, DeviceSigningKey, from_key}
use grindr_rs.World.{Env, World, ◌>>=◌, wait, await}
use grindr_rs.World.Yields.{
  Yields, bind-Yields, some-Yields, get-Yields, pure-Yields, fail-Yields, if-Yields, modify-Yields,
}
use package.grindr_rs.Request.Send.{
  from_stored, user_id_of, parse_api_error, export, is_success, foreign, store_key,
  restore_signing_key, signing_user_id, register, has_key_of, ensure_device_key,
}
use grindr_rs.Rest.Block.{is_success}
use grindr_rs.Rest.ApiError.{parse_api_error}
use grindr_rs.Auth.Session.{Session}

-- The client holds a device key of this account.
pub record Holds (env : Env) (user_id : Text) (w : World env) : Type 0 where
  pub key : DeviceKey env.crypto
  pub held : w.signing ≡ some key
  pub own : key.user_id ≡ user_id

foreign-user_id_of :
    (env : Env) (key : DeviceSigningKey) (w : World env) (session : Option Session) (id : Text)
    → w.auth.session ≡ session
    → user_id_of env w ≡ ok (some id)
    → foreign env w key ≡ not (text_eq id key.user_id)
unfolding foreign user_id_of
foreign-user_id_of env key w none id here e = absurd (let e' = rw here at e in ground arith)
foreign-user_id_of env key w (some s) id here e =
    let e' = rw here at e in
    let same : s.credentials.profile_id ≡ some id = ground arith in rw (here, same) refl

from_stored-user_id :
    (env : Env) (stored : DeviceSigningKey) (key : DeviceKey env.crypto)
    → from_stored env.crypto stored ≡ some key
    → key.user_id ≡ stored.user_id
unfolding from_stored from_key
from_stored-user_id env stored key e = ground arith

-- If the session names an account while the client looks, a stored key of another account is refused, and
-- no state changes but by the other tasks; one of the account is restored, and the client then holds a key
-- of that account, or it is refused since it cannot be read.
pub restore_signing_key-Holds :
    (env : Env) (key : DeviceSigningKey) (w : World env) (id : Text)
    → user_id_of env (wait w) ≡ ok (some id)
    → ((id ≢ key.user_id) × (restore_signing_key env key w ≡ (ok false, wait w)))
      ⊎ ((id ≡ key.user_id)
          × (from_stored env.crypto key ≡ none)
          × (restore_signing_key env key w ≡ (ok false, wait w)))
      ⊎ ((id ≡ key.user_id)
          × ((restore_signing_key env key w).0 ≡ ok true)
          × Holds env id (restore_signing_key env key w).1)
unfolding restore_signing_key await ◌>>=◌ store_key
restore_signing_key-Holds env key w id named =
    let test = foreign-user_id_of env key (wait w) (wait w).auth.session id refl named in
    elim (Bool-cases (text_eq id key.user_id)) [
      | inr differ ↦
          inl (λ e. let same = (text_eq_iff id key.user_id).1 e in cc, rw (test, differ) refl)
      | inl same ↦ inr (elim (Option-cases (from_stored env.crypto key)) [
        | inl unread ↦ inl (eq_of_text_eq id key.user_id same, unread, rw (test, same, unread) refl)
        | inr (device_key, read) ↦
            let mine = eq_of_text_eq id key.user_id same in
            inr (
              mine,
              rw (test, same, read) refl,
              rw (test, same, read)
                  (record {
                    key = device_key;
                    held = refl;
                    own = from_stored-user_id env key device_key read ∙ sym mine;
                  }),
            )
      ])
    ]

module _ (env : Env) where
  has_key_of-Holds :
      (user_id : Text) (w : World env) → has_key_of env user_id w ≡ true → Holds env user_id w
  unfolding has_key_of
  has_key_of-Holds user_id w h = elim (Option-cases w.signing) [
    | inl gone ↦ absurd (ground arith)
    | inr (key, here) ↦ record {
      key = key;
      held = here;
      own = eq_of_text_eq key.user_id user_id (ground arith);
    }
  ]

  register-Yields :
      (user_id android_id : Text) (key : DeviceKey env.crypto) (w : World env)
      → key.user_id ≡ user_id
      → Yields (register env user_id android_id key) w (λ _ v. Holds env user_id v)
  unfolding register store_key
  register-Yields user_id android_id key w own = bind-Yields (some-Yields _ w) λ response v₁ _.
      bind-Yields (some-Yields _ v₁) λ challenge v₂ _. bind-Yields (some-Yields _ v₂) λ body v₃ _.
        bind-Yields (some-Yields _ v₃) λ _ v₄ _. bind-Yields (some-Yields _ v₄) λ captcha v₅ _.
          bind-Yields (some-Yields _ v₅) λ request v₆ _. bind-Yields (some-Yields _ v₆) λ resp v₇ _.
            if-Yields (is_success resp.status)
              (λ _.
                modify-Yields (store_key env (export env.crypto key) key) v₇
                  (record { key = key; held = refl; own = own }))
              (λ _. fail-Yields (parse_api_error env.codec resp.body resp.status) v₇)

  ensure_device_key-Yields :
      (w : World env)
      → Yields (ensure_device_key env) w (λ _ v.
        (id : Text) × (u : World env) × (signing_user_id env w ≡ (ok id, u)) × Holds env id v)
  unfolding ensure_device_key from_key
  ensure_device_key-Yields w = bind-Yields (some-Yields (signing_user_id env) w) λ id u here.
      bind-Yields (some-Yields await u) λ _ v₁ _.
        bind-Yields (get-Yields (has_key_of env id) v₁) λ registered v₂ h₂.
          if-Yields registered
            (λ yes_held. pure-Yields tt v₂ (id, u, here, has_key_of-Holds id v₂ (ground arith)))
            (λ _. bind-Yields (some-Yields _ v₂) λ device v₃ _. record {
              holds = λ done v e. (
                id,
                u,
                here,
                (register-Yields id _ (from_key env.crypto (env.fresh_key device.turn) id) v₃
                      refl).holds
                    done v e,
              );
            })

-- After a successful registration the client holds a key of the account that the session named.
pub ensure_device_key-Holds :
    (env : Env) (w w' : World env)
    → ensure_device_key env w ≡ (ok tt, w')
    → (id : Text) × (u : World env) × (signing_user_id env w ≡ (ok id, u)) × Holds env id w'
ensure_device_key-Holds env w w' e = (ensure_device_key-Yields env w).holds tt w' e
