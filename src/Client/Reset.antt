-- ===== src/Client/Reset.antt =====
-- src/client.rs `reset_transport`: the device that is in use after it.
use grindr_rs.Prelude.{◌≡◌, refl}
use grindr_rs.Error.{Result, ok, err}
use grindr_rs.Device.{DeviceInfo}
use grindr_rs.World.{Env, World, ◌>>=◌, wait, await}
use package.grindr_rs.Client.Transport.{
  HttpLib, Fingerprint, build_fingerprint, build_fingerprint-device,
}
use package.grindr_rs.Client.{replace_fingerprint, reset_to, reset_transport}

module _ (env : Env) (lib : HttpLib) where
  reset_to-device :
      (device : DeviceInfo) (built : Result (Fingerprint lib)) (w : World env)
      → build_fingerprint lib device env.timeouts ≡ built
      → w.device ≡ device
      → (reset_to env lib built w).1.device ≡ device
  unfolding reset_to replace_fingerprint await ◌>>=◌
  reset_to-device device (ok fp) w e same = (build_fingerprint-device lib device env.timeouts e).0
  reset_to-device device (err x) w e same = same

  -- A reset of the transport ends with the device that it read at its start, also if another task rotated
  -- the device in between, and whether the new transport could be built or not.
  pub reset_transport-device :
      (w : World env) → (reset_transport env lib w).1.device ≡ (wait w).device
  unfolding reset_transport await ◌>>=◌
  reset_transport-device w =
      reset_to-device (wait w).device (build_fingerprint lib (wait w).device env.timeouts) (wait w)
        refl refl
