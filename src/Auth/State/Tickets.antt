-- ===== src/Auth/State/Tickets.antt =====
-- src/auth.rs: `AuthState` with the epochs that its tasks hold.
use grindr_rs.Prelude.{
  ℕ, Bool, true, false, Option, none, some, List, [], ◌∷◌, map, get_elem?, ◌==◌,
}
use package.grindr_rs.Auth.Session.{Session}
use package.grindr_rs.Auth.State.{
  AuthState, new, set_session_if_current, clear_session, set_active, note_failure, count_failure,
  emit_refresh_failure,
}
use package.grindr_rs.Auth.State.Cell.{
  Cell, Event, asked, stored, signed_out, activity, failure, counted, told,
}

-- The state, and the epochs that tasks read before they asked the server, the latest first.
pub record Shared : Type 0 where
  pub auth : AuthState
  pub epochs : List ℕ

abbrev pub start : Option Session → Shared
start initial = record { auth = new initial; epochs = [] }

-- A task that stores a session passes the epoch that it read.
abbrev pub commit_held : Session → Option ℕ → Shared → Bool × Shared
commit_held session none s = (false, s)
commit_held session (some epoch) s =
    let (after, taken) = set_session_if_current session epoch s.auth in
    (taken, record s { auth = after })

unfoldable pub step : Event → Shared → Bool × Shared
step asked s = (true, record s { epochs = s.auth.sign_out_epoch ∷ s.epochs })
step (stored session i) s = commit_held session (get_elem? s.epochs i) s
step signed_out s = (true, record s { auth = clear_session s.auth })
step (activity active) s = (true, record s { auth = set_active active s.auth })
step (failure error now) s = (true, record s { auth = note_failure error now s.auth })
step (counted error now) s = (true, record s { auth = count_failure error now s.auth })
step (told error) s = (true, record s { auth = emit_refresh_failure error s.auth })

unfoldable pub run : List Event → Shared → List (Bool × Option Session)
unfolding step
run [] s = []
run (event ∷ events) s =
    let (taken, after) = step event s in (taken, after.auth.session) ∷ run events after

abbrev pub is_current : ℕ → ℕ → Bool
is_current epoch e = e == epoch

-- The cell that a state stands for.
abbrev pub cell : Shared → Cell
cell s = record { value = s.auth.session; live = map (is_current s.auth.sign_out_epoch) s.epochs }
