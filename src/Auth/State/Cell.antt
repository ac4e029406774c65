-- ===== src/Auth/State/Cell.antt =====
-- src/auth.rs: what `AuthState` promises of the session, without the epoch. A task asks for a
-- session, talks to the server, and stores what it got: a request of before the last end of the
-- session is void.
use grindr_rs.Prelude.{
  ℕ, Bool, true, false, Option, none, some, List, [], ◌∷◌, map, get_or, if◌then◌else◌,
}
use grindr_rs.Error.{GrindrError, unauthorized, banned}
use package.grindr_rs.Auth.Session.{Session}

-- What happens to the session. A number counts the requests back from the latest.
pub data Event : Type 0 where
  asked : Event
  stored : Session → ℕ → Event
  signed_out : Event
  activity : Bool → Event
  failure : GrindrError → ℕ → Event
  counted : GrindrError → ℕ → Event
  told : GrindrError → Event

pub record Cell : Type 0 where
  pub value : Option Session
  pub live : List Bool

abbrev pub empty_cell : Option Session → Cell
empty_cell initial = record { value = initial; live = [] }

abbrev pub ends_session : GrindrError → Bool
ends_session (unauthorized code m) = true
ends_session (banned info) = true
ends_session error = false

abbrev pub void : Bool → Bool
void live = false

abbrev pub end : Cell → Cell
end c = record { value = none; live = map void c.live }

-- Whether the event was taken, and the cell after it.
unfoldable pub step : Event → Cell → Bool × Cell
step asked c = (true, record c { live = true ∷ c.live })
step (stored session i) c =
    if get_or c.live i false then (true, record c { value = some session }) else (false, c)
step signed_out c = (true, end c)
step (activity active) c = (true, c)
step (failure error now) c = (true, if ends_session error then end c else c)
step (counted error now) c = (true, c)
step (told error) c = (true, if ends_session error then end c else c)

-- What is seen of a history: whether each event was taken, and the session after it.
unfoldable pub run : List Event → Cell → List (Bool × Option Session)
unfolding step
run [] c = []
run (event ∷ events) c =
    let (taken, after) = step event c in (taken, after.value) ∷ run events after
