-- ===== src/Client.antt =====
-- src/client.rs `GrindrClient`: the methods that change the shared state.
pub mod SignOut
pub mod Reset
pub mod Handle
pub mod Calls
pub mod Emulation
pub mod Transport
use grindr_rs.Prelude.{Bool, Option, none, some, Text, codes}
use grindr_rs.Error.{GrindrError, Result, ok, err}
use grindr_rs.Device.{DeviceInfo}
use grindr_rs.Auth.State.{clear_session}
use grindr_rs.World.{Env, World, M, ◌>>=◌, ◌>>◌, pure, lift, get, modify, await}
use grindr_rs.Request.Exchange.{clear_signing}
use package.grindr_rs.Client.Transport.{HttpLib, Fingerprint, build_fingerprint}

module _ (env : Env) where
  unfoldable pub end_session : World env → World env
  unfolding clear_session
  end_session w = record w { auth = clear_session w.auth }

  unfoldable pub sign_out : M env (Unit {0})
  unfolding end_session
  sign_out = do await; modify end_session; clear_signing env

module _ (env : Env) (lib : HttpLib) where
  -- `*self.inner.fingerprint.write().await = …`; the clients of a fingerprint are not part of the world.
  unfoldable pub replace_fingerprint : Fingerprint lib → World env → World env
  replace_fingerprint fp w = record w { device = fp.device; user_agent = fp.user_agent }

  -- `rotate_device`, with the fingerprint of the new device as it was built.
  unfoldable pub rotate_to : Result (Fingerprint lib) → M env DeviceInfo
  unfolding replace_fingerprint
  rotate_to built = do
    new_fp ← lift built
    await
    old ← get (λ w. w.device)
    modify (replace_fingerprint new_fp)
    clear_signing env
    pure old

  unfoldable pub rotate_device : DeviceInfo → M env DeviceInfo
  unfolding rotate_to build_fingerprint
  rotate_device device = rotate_to (build_fingerprint lib device env.timeouts)

  unfoldable pub sign_out_rotating : DeviceInfo → M env DeviceInfo
  sign_out_rotating device = do sign_out env; rotate_device device

  unfoldable pub reset_to : Result (Fingerprint lib) → M env (Unit {0})
  unfolding replace_fingerprint
  reset_to built = do fingerprint ← lift built; await; modify (replace_fingerprint fingerprint)

  -- The device is read at one turn, and its new fingerprint is put in place at a later one.
  unfoldable pub reset_transport : M env (Unit {0})
  unfolding reset_to build_fingerprint
  reset_transport = do
    await
    device ← get (λ w. w.device)
    reset_to (build_fingerprint lib device env.timeouts)

  unfoldable pub current_device : M env DeviceInfo
  current_device = do await; get (λ w. w.device)
