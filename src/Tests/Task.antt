-- ===== src/Tests/Task.antt =====
-- Runs of the websocket task: the server takes the offer at first, which the task takes back.
use grindr_rs.Prelude.{
  arith, ◌≢◌, ℕ, true, false, none, some, ◌++◌, length, ltb, ◌≡◌, refl, map_option, get_elem?,
}
use grindr_rs.World.{await, ◌>>=◌, wait, World}
use grindr_rs.Ws.Messages.{Incoming}
use grindr_rs.Ws.Connect.{replied, connected}
use grindr_rs.Ws.Task.{
  starting, no_senders, Outside, message, Task, sleeping, connecting, running, spawn, steps, step,
}
use grindr_rs.Ws.Task.Channel.{IsTold, spawn-IsTold}
use grindr_rs.Ws.Task.Requests.{Requested, spawn-Requested}
use grindr_rs.World.Quiet.{IsQuiet}
use grindr_rs.Ws.Task.Again.{Awake, Connects, ended-Connects}
use package.grindr_rs.Tests.Setting.{Json, calm, world_of, session_until}
use grindr_rs.Auth.Calls.Authorize.{current_authorization, authorize}
use grindr_rs.Auth.Session.{expires_before}
use grindr_rs.Headers.{build}
use grindr_rs.Ws.Backoff.{fresh}

abbrev outside : Outside Json
outside = record {
  answer = λ turn. replied (ltb turn 6) none;
  signal = λ turn. message Incoming.close none;
  session_changes = λ turn. true;
  closed = λ turn. false;
  command_text = λ kind ref_id token payload. kind ++ token;
}

abbrev world : World calm
world = world_of calm (some (session_until 3600))

abbrev after : ℕ → Task calm
after n = steps calm outside n (spawn calm outside world)

spawn-IsTold_example : IsTold calm outside (after 5)
spawn-IsTold_example = spawn-IsTold calm outside 5 world

spawn-Requested_example :
    Requested calm outside (after 1) (step calm outside (after 1).phase (after 1))
spawn-Requested_example = spawn-Requested calm outside 1 world

-- The second request makes no offer, and its websocket opens.
second_opens :
    ((after 1).phase ≡ connecting)
    × ((after 2).phase ≡ sleeping 1_000)
    × ((after 4).phase ≡ connecting)
    × ((after 5).phase ≡ running)
    × ((after 5).link.state ≡ connected)
    × (map_option (λ u. length u.headers) (get_elem? (after 5).link.upgrades 0) ≡ some 9)
    × (map_option (λ u. length u.headers) (get_elem? (after 5).link.upgrades 1) ≡ some 10)
unfolding steps spawn step wait authorize ◌>>=◌ await expires_before current_authorization build
    fresh
second_opens = (refl, refl, refl, refl, refl, refl, refl)

-- Every handle of the client is gone, so the message loop ends at once.
abbrev abandoned : Outside Json
abandoned = record outside { answer = λ turn. replied false none; signal = λ turn. no_senders }

calm_alone : IsQuiet calm
calm_alone turn = refl

abbrev abandoned_after : ℕ → Task calm
abandoned_after n = steps calm abandoned n (spawn calm abandoned world)

-- It connects again and again, without a pause.
reconnects_at_once :
    ((abandoned_after 2).phase ≡ running)
    × ((abandoned_after 3).phase ≡ starting)
    × ((abandoned_after 4).phase ≡ connecting)
    × ((abandoned_after 5).phase ≡ running)
    × ((abandoned_after 6).phase ≡ starting)
    × ((abandoned_after 8).phase ≡ running)
    × (length (abandoned_after 8).link.upgrades ≡ 3)
unfolding steps spawn step wait authorize ◌>>=◌ await expires_before current_authorization build
    fresh
reconnects_at_once = (refl, refl, refl, refl, refl, refl, refl)

awake : Awake calm abandoned calm_alone (abandoned_after 2)
unfolding steps spawn step wait authorize ◌>>=◌ await expires_before current_authorization build
    fresh
awake = (refl, refl)

runs : (abandoned_after 2).phase ≡ running
unfolding steps spawn step wait authorize ◌>>=◌ await expires_before current_authorization build
    fresh
runs = refl

over : (step calm abandoned running (abandoned_after 2)).phase ≢ running
unfolding steps spawn step wait authorize ◌>>=◌ await expires_before current_authorization build
    fresh
over e = ground arith

ended-Connects_example :
    Connects calm abandoned calm_alone 2 (step calm abandoned running (abandoned_after 2))
ended-Connects_example =
    ended-Connects calm abandoned calm_alone (abandoned_after 2) awake runs over
