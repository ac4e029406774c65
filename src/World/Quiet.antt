-- ===== src/World/Quiet.antt =====
-- The world of a task with no other task at work.
use grindr_rs.Prelude.{ℕ, suc, [], ◌≡◌, refl}
use package.grindr_rs.World.{Env, World, wait, act_all}

abbrev pub IsQuiet : Env → Type 0
IsQuiet env = (turn : ℕ) → env.others turn ≡ []

pub quiet_wait : (env : Env) (w : World env) → IsQuiet env → wait w ≡ record w { turn = suc w.turn }
unfolding wait act_all
quiet_wait env w quiet = rw (quiet w.turn) refl
