-- ===== src/Client/SignOut.antt =====
-- src/client.rs: what is left of an account after a sign-out.
use grindr_rs.Prelude.{suc, [], none, ◌≡◌, refl, ap, ◌∙◌, ℕ, ◌+◌, ◌%◌}
use grindr_rs.Error.{Result, ok, err}
use grindr_rs.Device.{DeviceInfo}
use grindr_rs.Auth.State.{publish, clear_session}
use grindr_rs.World.Quiet.{quiet_wait}
use grindr_rs.World.{Env, World, ◌>>=◌, wait, await}
use grindr_rs.Request.Exchange.{clear_signing, drop_signing}
use package.grindr_rs.Client.Transport.{
  HttpLib, Fingerprint, build_fingerprint, build_fingerprint-device,
}
use package.grindr_rs.Client.{
  end_session, sign_out, replace_fingerprint, rotate_to, rotate_device, sign_out_rotating,
}

-- The device that is in use after the transport of a new one was built, or was not.
abbrev pub device_after : {A : Type 0} → Result A → DeviceInfo → DeviceInfo → DeviceInfo
device_after (ok _) old new_one = new_one
device_after (err e) old new_one = old

abbrev pub answer_after : {A : Type 0} → Result A → DeviceInfo → Result DeviceInfo
answer_after (ok _) old = ok old
answer_after (err e) old = err e

-- The two waits of a sign-out.
abbrev signed_out : {env : Env} → World env → World env
signed_out w =
    drop_signing _
      (record (end_session _ (record w { turn = suc w.turn })) { turn = suc (suc w.turn) })

sign_out-run :
    (env : Env) (w : World env)
    → ((turn : ℕ) → env.others turn ≡ [])
    → sign_out env w ≡ (ok tt, signed_out w)
unfolding sign_out clear_signing await ◌>>=◌
sign_out-run env w quiet =
    ap (λ v. (ok tt, drop_signing env (wait (end_session env v)))) (quiet_wait env w quiet)
    ∙ ap (λ v. (ok tt, drop_signing env v))
        (quiet_wait env (end_session env (record w { turn = suc w.turn })) quiet)

module _ (env : Env) (lib : HttpLib) where
  abbrev rotated : Fingerprint lib → World env → World env
  rotated fp w =
      drop_signing _ (record (replace_fingerprint env lib fp (record w { turn = suc w.turn })) {
        turn = suc (suc w.turn);
      })

  rotate-run :
      (fp : Fingerprint lib) (w : World env)
      → ((turn : ℕ) → env.others turn ≡ [])
      → rotate_to env lib (ok fp) w ≡ (ok w.device, rotated fp w)
  unfolding rotate_to clear_signing await replace_fingerprint ◌>>=◌
  rotate-run fp w quiet =
      ap (λ v. (ok v.device, drop_signing env (wait (replace_fingerprint env lib fp v))))
        (quiet_wait env w quiet)
      ∙ ap (λ v. (ok w.device, drop_signing env v))
          (quiet_wait env (replace_fingerprint env lib fp (record w { turn = suc w.turn })) quiet)

  -- What a sign-out with a rotation comes to, for the fingerprint as it was built.
  abbrev Cleared : DeviceInfo → Result (Fingerprint lib) → World env → Type 0
  Cleared device built w =
      let (answer, after) = (sign_out env >>= λ done. rotate_to env lib built) w in
      (answer ≡ answer_after built w.device)
      × (after.auth.session ≡ none)
      × (after.signing ≡ none)
      × (after.signing_watch ≡ none)
      × (after.device ≡ device_after built w.device device)
      × (after.auth.sign_out_epoch ≡ (w.auth.sign_out_epoch + 1) % 18_446_744_073_709_551_616)

  rotated-Cleared :
      (device : DeviceInfo) (built : Result (Fingerprint lib)) (w : World env)
      → ((turn : ℕ) → env.others turn ≡ [])
      → build_fingerprint lib device env.timeouts ≡ built
      → Cleared device built w
  unfolding rotate_to drop_signing end_session clear_session replace_fingerprint publish ◌>>=◌
  rotated-Cleared device (ok fp) w quiet e =
      rw (sign_out-run env w quiet, rotate-run fp (signed_out w) quiet)
        (refl, refl, refl, refl, (build_fingerprint-device lib device env.timeouts e).0, refl)
  rotated-Cleared device (err x) w quiet e =
      rw (sign_out-run env w quiet) (refl, refl, refl, refl, refl, refl)

-- With no other task at work, a sign-out with a rotation leaves no session and no device key, and
-- raises the epoch by one; it returns the old device and has the new one in use, or it returns the
-- error of building the new transport and keeps the old device.
pub sign_out_rotating-clears :
    (env : Env) (lib : HttpLib) (device : DeviceInfo) (w : World env)
    → ((turn : ℕ) → env.others turn ≡ [])
    → let built = build_fingerprint lib device env.timeouts in
      let (answer, after) = sign_out_rotating env lib device w in
      (answer ≡ answer_after built w.device)
      × (after.auth.session ≡ none)
      × (after.signing ≡ none)
      × (after.signing_watch ≡ none)
      × (after.device ≡ device_after built w.device device)
      × (after.auth.sign_out_epoch ≡ (w.auth.sign_out_epoch + 1) % 18_446_744_073_709_551_616)
unfolding sign_out_rotating rotate_device
sign_out_rotating-clears env lib device w quiet =
    rotated-Cleared env lib device (build_fingerprint lib device env.timeouts) w quiet refl
