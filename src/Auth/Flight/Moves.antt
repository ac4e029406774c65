-- ===== src/Auth/Flight/Moves.antt =====
-- src/auth.rs: what one step of a task does to `refresh_lock`.
use grindr_rs.Prelude.{
  ℕ, Bool, true, false, Option, none, some, ◌==◌, ◌≡◌, refl, inl, inr, Bool-cases, Option-cases,
}
use grindr_rs.Error.{Result, ok, err}
use package.grindr_rs.Auth.Session.{Session}
use package.grindr_rs.Auth.Flight.{
  soon, is_blocked, Need, Stage, starting, wants, holds, passed, asking, done, Shared, Turn, needed,
  release, look_again, take, ask, answered, first_look, step, set_stage,
}
use grindr_rs.Auth.Gate.{is_blocked}

-- Between the lock and its release.
abbrev pub is_critical : Stage → Bool
is_critical (holds need) = true
is_critical (passed need) = true
is_critical (asking need session epoch) = true
is_critical stage = false

-- What a step does to the lock: it keeps it, takes it, or releases it.
pub data Moves (me : ℕ) (stage : Stage) (lock : Option ℕ) (after : Stage × Shared) : Type 0 where
  kept : is_critical after.0 ≡ is_critical stage → after.1.lock ≡ lock → Moves me stage lock after
  taken :
      lock ≡ none → is_critical after.0 ≡ true → after.1.lock ≡ some me → Moves me stage lock after
  released :
      is_critical stage ≡ true
      → is_critical after.0 ≡ false
      → after.1.lock ≡ none
      → Moves me stage lock after

take-Moves :
    (t : Turn) (need : Need) (lock : Option ℕ) (s : Shared)
    → s.lock ≡ lock
    → Moves t.task (wants need) lock (take t need lock s)
unfolding take
take-Moves t need none s e = taken refl refl refl
take-Moves t need (some i) s e = kept refl e

look_again-Moves :
    (t : Turn) (need : Need) (found : Option Session) (s : Shared)
    → Moves t.task (holds need) s.lock (look_again t need found s)
unfolding look_again release
look_again-Moves t need none s = released refl refl refl
look_again-Moves t need (some session) s =
    elim (Bool-cases (is_blocked s.auth.refresh_gate t.instant)) [
      | inl shut ↦ rw shut (released refl refl refl)
      | inr lets ↦ rw lets (kept refl refl)
    ]

ask-Moves :
    (t : Turn) (need : Need) (found : Option Session) (s : Shared)
    → Moves t.task (passed need) s.lock (ask t need found s)
unfolding ask release
ask-Moves t need none s = released refl refl refl
ask-Moves t need (some session) s = kept refl refl

answered-Moves :
    (t : Turn) (need : Need) (session : Session) (epoch : ℕ) (answer : Result Session) (s : Shared)
    → Moves t.task (asking need session epoch) s.lock (answered t need epoch answer s)
unfolding answered release
answered-Moves t need session epoch (err e) s = released refl refl refl
answered-Moves t need session epoch (ok fresh) s = released refl refl refl

pub step-Moves :
    (t : Turn) (stage : Stage) (s : Shared) → Moves t.task stage s.lock (step t stage s)
unfolding step first_look
step-Moves t starting s = elim (Option-cases (needed soon s.auth t.now)) [
  | inl none_needed ↦ rw none_needed (kept refl refl)
  | inr (session, e) ↦ rw e (kept refl refl)
]
step-Moves t (wants need) s = take-Moves t need s.lock s refl
step-Moves t (holds need) s = look_again-Moves t need (needed need s.auth t.now) s
step-Moves t (passed need) s = ask-Moves t need s.auth.session s
step-Moves t (asking need session epoch) s = answered-Moves t need session epoch t.answer s
step-Moves t done s = kept refl refl

pub set_stage-same :
    (stages : ℕ → Stage) (i : ℕ) (stage : Stage) (j : ℕ)
    → (j == i) ≡ true
    → set_stage stages i stage j ≡ stage
unfolding set_stage
set_stage-same stages i stage j e = rw e refl

pub set_stage-other :
    (stages : ℕ → Stage) (i : ℕ) (stage : Stage) (j : ℕ)
    → (j == i) ≡ false
    → set_stage stages i stage j ≡ stages j
unfolding set_stage
set_stage-other stages i stage j e = rw e refl
