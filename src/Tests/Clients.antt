-- ===== src/Tests/Clients.antt =====
-- Instances of the rules of the client handle. The HTTP library builds every client.
use grindr_rs.Prelude.{ℕ, ◌+◌, ◌%◌, none, [], ◌∷◌, codes, ◌≡◌, refl, inl, if◌then◌else◌, ◌==◌}
use grindr_rs.Device.{DeviceInfo}
use grindr_rs.World.{Env, rotate, wait, ◌>>=◌, await}
use grindr_rs.Client.{sign_out_rotating, reset_transport}
use grindr_rs.Client.Transport.{HttpLib, build_fingerprint}
use grindr_rs.Client.SignOut.{answer_after, device_after, sign_out_rotating-clears}
use grindr_rs.Client.Reset.{reset_transport-device}
use package.grindr_rs.Tests.Setting.{calm, stale, device, world_of}

abbrev http_lib : HttpLib
http_lib = record { Client = Unit {0}; build = λ builder. inl tt }

calm_alone : (turn : ℕ) → calm.others turn ≡ []
calm_alone turn = refl

sign_out_rotating-clears_example :
    let built = build_fingerprint http_lib device calm.timeouts in
    let (answer, after) = sign_out_rotating calm http_lib device stale in
    (answer ≡ answer_after built stale.device)
    × (after.auth.session ≡ none)
    × (after.signing ≡ none)
    × (after.signing_watch ≡ none)
    × (after.device ≡ device_after built stale.device device)
    × (after.auth.sign_out_epoch ≡ (stale.auth.sign_out_epoch + 1) % 18_446_744_073_709_551_616)
sign_out_rotating-clears_example = sign_out_rotating-clears calm http_lib device stale calm_alone

-- Another task rotates the device while the transport is reset.
abbrev other_device : DeviceInfo
other_device = record device { device_id = codes "e" }

abbrev rotating : Env
rotating = record calm {
  others = λ turn. if turn == 1 then rotate other_device (codes "new") ∷ [] else [];
}

reset_transport-device_example :
    (reset_transport rotating http_lib (world_of rotating none)).1.device
    ≡ (wait (world_of rotating none)).device
reset_transport-device_example = reset_transport-device rotating http_lib (world_of rotating none)

-- The rotation is undone: the old device is in use again.
rotation_undone :
    ((wait (wait (world_of rotating none))).device.device_id ≡ codes "e")
    × ((reset_transport rotating http_lib (world_of rotating none)).1.device.device_id ≡ codes "d")
unfolding wait codes reset_transport ◌>>=◌ await
rotation_undone = (refl, refl)
