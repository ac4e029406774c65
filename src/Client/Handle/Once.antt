-- ===== src/Client/Handle/Once.antt =====
-- src/client.rs `ensure_ws_task`: how many tasks a client spawns.
use grindr_rs.Prelude.{ℕ, zero, suc, true, false, some, [], ◌∷◌, length, ◌≡◌, refl, ap, ◌∙◌, arith}
use grindr_rs.Error.{ok}
use grindr_rs.World.{Env}
use package.grindr_rs.Client.Transport.{HttpLib}
use package.grindr_rs.Client.Handle.{
  GrindrClient, ClientSetup, make_channels, from_setup, spawn_parts, ensure_ws_task, connect,
  connects,
}

module _ (env : Env) (lib : HttpLib) (Provider : Type 0) where
  -- What a client that came into being holds for its websocket.
  from_setup-ws :
      (setup : ClientSetup) {c : GrindrClient env lib Provider}
      → from_setup env lib Provider setup ≡ ok c
      → (c.ws_started ≡ false) × (c.ws_spawn ≡ some make_channels) × (c.ws_tasks ≡ [])
  unfolding from_setup
  from_setup-ws setup e = ground arith

  first_connect :
      (c : GrindrClient env lib Provider)
      → c.ws_started ≡ false
      → c.ws_spawn ≡ some make_channels
      → ((connect env lib Provider c).ws_started ≡ true)
        × ((connect env lib Provider c).ws_tasks ≡ make_channels ∷ c.ws_tasks)
  unfolding connect ensure_ws_task spawn_parts
  first_connect c h parts = rw (h, parts) (refl, refl)

  later_connect :
      (c : GrindrClient env lib Provider)
      → c.ws_started ≡ true
      → ((connect env lib Provider c).ws_started ≡ true)
        × ((connect env lib Provider c).ws_tasks ≡ c.ws_tasks)
  unfolding connect ensure_ws_task
  later_connect c h = ground arith

  later_connects :
      (n : ℕ) (c : GrindrClient env lib Provider)
      → c.ws_started ≡ true
      → (connects env lib Provider n c).ws_tasks ≡ c.ws_tasks
  unfolding connects
  later_connects zero c h = refl
  later_connects (suc n) c h =
      let once = later_connect c h in later_connects n (connect env lib Provider c) once.0 ∙ once.1

  -- However often a new client and its clones connect, one task of the websocket is spawned; without it
  -- there is none.
  pub connects-length :
      (setup : ClientSetup) {c : GrindrClient env lib Provider} (n : ℕ)
      → from_setup env lib Provider setup ≡ ok c
      → (length (connects env lib Provider (suc n) c).ws_tasks ≡ 1)
        × (length (connects env lib Provider 0 c).ws_tasks ≡ 0)
  unfolding connects
  connects-length setup {c} n e =
      let (fresh, parts, none_yet) = from_setup-ws setup e in
      let (started, tasks) = first_connect c fresh parts in
      (
        ap length (later_connects n (connect env lib Provider c) started ∙ tasks)
            ∙ ap (λ ts. suc (length ts)) none_yet,
        ap length none_yet,
      )
