-- ===== src/Tests/Flights.antt =====
-- Two tasks whose token was refused.
use grindr_rs.Prelude.{
  ◌≢◌, text_eq, ◌∷◌, List, ℕ, ltb, true, false, none, some, [], Text, codes, ◌≡◌, refl, ◌≤◌, arith,
  if◌then◌else◌,
}
use grindr_rs.Prelude.Int.{pos}
use grindr_rs.Error.{ok, err, unauthorized}
use grindr_rs.Auth.Session.{Session}
use grindr_rs.Auth.State.{new, sign_out, commit}
use grindr_rs.Auth.Flight.{
  refused, Stage, wants, done, System, Event, task, other, happen, happen_all,
}
use grindr_rs.Auth.Flight.Moves.{is_critical}
use grindr_rs.Auth.Flight.Mutex.{is_asking, one_refresh_at_a_time}
use grindr_rs.Auth.Flight.Does.{count_for}
use grindr_rs.Auth.Flight.Held.{IsHeld, happen_all-IsHeld}
use grindr_rs.Auth.Flight.Ends.{lock_is_released}
use grindr_rs.Auth.Flight.Once.{one_refresh_per_token}
use package.grindr_rs.Tests.Setting.{session_until}
use grindr_rs.Auth.Gate.{take_owed_recovery}

abbrev old : Text
old = codes "old"

abbrev fresh : Session
fresh = record (session_until 9_000) {
  token = some (record { session_id = codes "new"; expires_at = 9_000; restriction = none });
}

-- Two tasks want the lock; all others are done.
abbrev stage_of : ℕ → Stage
stage_of i = if ltb i 2 then wants (refused old) else done

abbrev start : System
start = record {
  shared = record { auth = new (some (session_until 3_600)); lock = none; stored = [] };
  stages = stage_of;
}

abbrev turn : ℕ → Event
turn i = task (record { task = i; now = 0; instant = 0; answer = ok fresh })

calm_start : (k : ℕ) → is_critical (stage_of k) ≡ false
calm_start k = ground arith

abbrev first_asks : List Event
first_asks = turn 0 ∷ turn 1 ∷ turn 0 ∷ turn 0 ∷ turn 1 ∷ []

first_waits : is_asking ((happen_all first_asks start).stages 0) ≡ true
unfolding happen_all new codes
first_waits = refl

one_refresh_at_a_time_example : is_asking ((happen_all first_asks start).stages 1) ≡ false
one_refresh_at_a_time_example =
    one_refresh_at_a_time first_asks start 0 1 calm_start first_waits (ground arith)

-- The second task looks again, and finds the session that the first one stored.
abbrev both : List Event
both = turn 0 ∷ turn 1 ∷ turn 0 ∷ turn 0 ∷ turn 0 ∷ turn 1 ∷ turn 1 ∷ []

both_done :
    ((happen_all both start).stages 0 ≡ done)
    × ((happen_all both start).stages 1 ≡ done)
    × (count_for old (happen_all both start).shared.stored ≡ 1)
    × ((happen_all both start).shared.auth.session ≡ some fresh)
unfolding happen_all new codes take_owed_recovery
both_done = (refl, refl, refl, refl)

one_refresh_per_token_example : count_for old (happen_all both start).shared.stored ≤ 1
unfolding text_eq codes
one_refresh_per_token_example =
    one_refresh_per_token old both start calm_start refl
      (refl, (refl, (refl, (refl, (refl, (refl, (refl, tt)))))))

no_lock : IsHeld start
no_lock i e = absurd (ground arith)

abbrev one_holds : System
one_holds = happen_all (turn 0 ∷ []) start

abbrev others_between : List Event
others_between = turn 1 ∷ turn 0 ∷ turn 0 ∷ turn 1 ∷ turn 0 ∷ []

lock_is_released_example :
    ((happen_all others_between one_holds).stages 0 ≡ done)
    × ((happen_all others_between one_holds).shared.lock ≢ some 0)
unfolding happen_all
lock_is_released_example =
    lock_is_released 0 others_between one_holds (happen_all-IsHeld (turn 0 ∷ []) start no_lock) refl
      (omega arith)

-- The refusal of a refresh from before a sign-out ends the session of the sign-in after it.
abbrev refusal : Event
refusal =
    task (record {
      task = 0;
      now = 0;
      instant = 0;
      answer = err (unauthorized (pos 401) (codes "no"));
    })

late_refusal :
    let before =
      happen_all (turn 0 ∷ turn 0 ∷ turn 0 ∷ other sign_out ∷ other (commit fresh 1) ∷ []) start in
    (before.shared.auth.session ≡ some fresh) × ((happen refusal before).shared.auth.session ≡ none)
unfolding happen_all new codes take_owed_recovery
late_refusal = (refl, refl)
