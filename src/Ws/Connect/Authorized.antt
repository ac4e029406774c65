-- ===== src/Ws/Connect/Authorized.antt =====
-- src/ws.rs `connect_and_run`: the requests for a websocket and the session.
use grindr_rs.Prelude.{ap, ℕ, some, ◌∷◌, List, codes, ◌≡◌, refl, arith, ◌⊎◌, inl, inr}
use grindr_rs.Error.{ok, err, Result}
use grindr_rs.Headers.{Header, build}
use grindr_rs.Headers.Names.{authorized_headers, build-authorized}
use grindr_rs.World.{Env, World, wait}
use grindr_rs.Auth.Session.{Authorization, authorization_header}
use grindr_rs.Auth.Calls.Authorize.{authorize, current_authorization}
use grindr_rs.Auth.Calls.Authorize.Current.{authorize-current}
use package.grindr_rs.Ws.Connect.{
  checked, with_headers, Upgrade, Answer, Link, upgrade, read_answer, send_upgrade,
  with_authorization, open_websocket, into_websocket,
}
use package.grindr_rs.Ws.Backoff.{deflate_answer}

module _ (env : Env) (answer : ℕ → Answer) where
  -- A request with the headers of the client for the authorization of its session, and with the offer of
  -- the extension exactly if the task still makes it.
  pub record Authorized (l : Link env) (u : Upgrade) : Type 0 where
    pub authorization : Authorization
    pub authorized : World env
    pub given : authorize env l.world ≡ (ok authorization, authorized)
    pub current : current_authorization env authorized ≡ ok authorization
    pub same :
        u
        ≡ upgrade
            (authorized_headers
              (wait authorized).device
              (wait authorized).user_agent
              (authorization_header authorization)
              (codes "[FREE]"))
            l.reconnect.offer_deflate

  read_answer-upgrades :
      (a : Answer) (l : Link env) → (read_answer env answer a l).1.upgrades ≡ l.upgrades
  unfolding read_answer checked into_websocket deflate_answer
  read_answer-upgrades a l = ground arith

  -- `AtMostOne l l'`: no request was made, or one that is authorized.
  abbrev pub AtMostOne : Link env → Link env → Type 0
  AtMostOne l l' =
      (l'.upgrades ≡ l.upgrades) ⊎ ((u : Upgrade) × (l'.upgrades ≡ u ∷ l.upgrades) × Authorized l u)

  send_upgrade-upgrades :
      (items : List Header) (l : Link env)
      → (send_upgrade env answer items l).1.upgrades
        ≡ upgrade items l.reconnect.offer_deflate ∷ l.upgrades
  unfolding send_upgrade
  send_upgrade-upgrades items l = read_answer-upgrades (answer l.world.turn) _

  -- The world as it was authorized, and the headers that the client has a turn later.
  built-AtMostOne :
      (l : Link env) (a : Authorization) (v : World env) (built : Result (List Header))
      → authorize env l.world ≡ (ok a, v)
      → build env.header
          (wait v).device
          (wait v).user_agent
          (some (authorization_header a))
          (some (codes "[FREE]"))
        ≡ built
      → AtMostOne l (with_headers env answer built (record l { world = wait v })).1
  unfolding with_headers
  built-AtMostOne l a v (err x) e built = inl refl
  built-AtMostOne l a v (ok items) e built =
      let items_are =
        build-authorized env.header (wait v).device (wait v).user_agent (authorization_header a)
          (codes "[FREE]") built in
      inr (
        upgrade items l.reconnect.offer_deflate,
        send_upgrade-upgrades items (record l { world = wait v }),
        record {
          authorization = a;
          authorized = v;
          given = e;
          current = authorize-current env l.world v a e;
          same = ap (λ is. upgrade is l.reconnect.offer_deflate) items_are;
        },
      )

  given-AtMostOne :
      (l : Link env) (given : Result Authorization × World env)
      → authorize env l.world ≡ given
      → AtMostOne l (with_authorization env answer given.0 (record l { world = given.1 })).1
  unfolding with_authorization
  given-AtMostOne l (err x, v) e = inl refl
  given-AtMostOne l (ok a, v) e = built-AtMostOne l a v _ e refl

  -- An attempt to connect makes at most one request for a websocket. The request has the headers of the
  -- client for the authorization that the session gives at that time, and offers the extension exactly if
  -- the task still makes the offer.
  pub open_websocket-AtMostOne : (l : Link env) → AtMostOne l (open_websocket env answer l).1
  unfolding open_websocket
  open_websocket-AtMostOne l = given-AtMostOne l (authorize env l.world) refl
