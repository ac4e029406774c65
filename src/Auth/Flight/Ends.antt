-- ===== src/Auth/Flight/Ends.antt =====
-- src/auth.rs `refresh_lock`: how long a task keeps it.
use grindr_rs.Prelude.{
  ◌≢◌, ℕ, ◌+◌, ◌-◌, ◌≤◌, Bool, true, false, Option, none, some, List, [], ◌∷◌, if◌then◌else◌, ◌==◌,
  ==_iff, ◌≡◌, refl, sym, ◌∙◌, ap, arith, inl, inr, Bool-cases,
}
use mathlib.Core.Bool.{false≢true}
use grindr_rs.Error.{Result, ok, err}
use grindr_rs.Auth.Gate.{is_blocked}
use package.grindr_rs.Auth.Session.{Session}
use package.grindr_rs.Auth.Flight.{
  Need, Stage, starting, wants, holds, passed, asking, done, Shared, Turn, needed, release,
  look_again, ask, answered, step, System, Event, task, other, happen, happen_all,
}
use package.grindr_rs.Auth.Flight.Moves.{is_critical, set_stage-same, set_stage-other}
use package.grindr_rs.Auth.Flight.Held.{IsHeld, happen_all-IsHeld}

-- The turns that a task has in a history.
abbrev is_turn_of : ℕ → Event → Bool
is_turn_of i (task t) = i == t.task
is_turn_of i (other op) = false

abbrev pub count_turns : ℕ → List Event → ℕ
count_turns i [] = 0
count_turns i (e ∷ es) = (if is_turn_of i e then 1 else 0) + count_turns i es

-- The turns until a task that has the lock is done, at most.
abbrev rank : Stage → ℕ
rank (holds need) = 3
rank (passed need) = 2
rank (asking need session epoch) = 1
rank stage = 0

-- A task that has the lock, or has had it.
abbrev is_past : Stage → Bool
is_past done = true
is_past stage = is_critical stage

abbrev Falls : Stage → Stage → Type 0
Falls stage after = (is_past after ≡ true) × (rank after ≤ rank stage - 1)

look_again-Falls :
    (t : Turn) (need : Need) (found : Option Session) (s : Shared)
    → Falls (holds need) (look_again t need found s).0
unfolding look_again release
look_again-Falls t need none s = (refl, omega arith)
look_again-Falls t need (some session) s =
    elim (Bool-cases (is_blocked s.auth.refresh_gate t.instant)) [
      | inl shut ↦ rw shut (refl, omega arith)
      | inr lets ↦ rw lets (refl, omega arith)
    ]

ask-Falls :
    (t : Turn) (need : Need) (found : Option Session) (s : Shared)
    → Falls (passed need) (ask t need found s).0
unfolding ask release
ask-Falls t need none s = (refl, omega arith)
ask-Falls t need (some session) s = (refl, omega arith)

answered-Falls :
    (t : Turn) (need : Need) (session : Session) (epoch : ℕ) (answer : Result Session) (s : Shared)
    → Falls (asking need session epoch) (answered t need epoch answer s).0
unfolding answered release
answered-Falls t need session epoch (err e) s = (refl, omega arith)
answered-Falls t need session epoch (ok fresh) s = (refl, omega arith)

step-Falls :
    (t : Turn) (stage : Stage) (s : Shared) → is_past stage ≡ true → Falls stage (step t stage s).0
unfolding step
step-Falls t starting s past = absurd (false≢true past)
step-Falls t (wants need) s past = absurd (false≢true past)
step-Falls t (holds need) s past = look_again-Falls t need (needed need s.auth t.now) s
step-Falls t (passed need) s past = ask-Falls t need s.auth.session s
step-Falls t (asking need session epoch) s past = answered-Falls t need session epoch t.answer s
step-Falls t done s past = (refl, omega arith)

happen-Falls :
    (i : ℕ) (e : Event) (y : System)
    → is_past (y.stages i) ≡ true
    → let after = (happen e y).stages i in
      (is_past after ≡ true) × (rank after ≤ rank (y.stages i) - (if is_turn_of i e then 1 else 0))
unfolding happen
happen-Falls i (other op) y past = (past, omega arith)
happen-Falls i (task t) y past =
    let after = step t (y.stages t.task) y.shared in
    elim (Bool-cases (i == t.task)) [
      | inl mine ↦
          let same = sym ((==_iff i t.task).0 mine) in
          let falls =
            step-Falls t (y.stages t.task) y.shared (ap (λ k. is_past (y.stages k)) same ∙ past) in
          rw (set_stage-same y.stages t.task after.0 i mine, mine, ← same) falls
      | inr another ↦
          rw (set_stage-other y.stages t.task after.0 i another, another) (past, omega arith)
    ]

done_of_rank : (stage : Stage) → is_past stage ≡ true → rank stage ≤ 0 → stage ≡ done
done_of_rank starting past low = absurd (false≢true past)
done_of_rank (wants need) past low = absurd (false≢true past)
done_of_rank (holds need) past low = absurd (omega arith)
done_of_rank (passed need) past low = absurd (omega arith)
done_of_rank (asking need session epoch) past low = absurd (omega arith)
done_of_rank done past low = refl

ends_by_rank :
    (i : ℕ) (es : List Event) (y : System)
    → is_past (y.stages i) ≡ true
    → rank (y.stages i) ≤ count_turns i es
    → (happen_all es y).stages i ≡ done
unfolding happen_all
ends_by_rank i [] y past low = done_of_rank (y.stages i) past low
ends_by_rank i (e ∷ es) y past low =
    let (past_after, falls) = happen-Falls i e y past in
    ends_by_rank i es (happen e y) past_after (omega arith)

critical_is_past :
    (stage : Stage) → is_critical stage ≡ true → (is_past stage ≡ true) × (rank stage ≤ 3)
critical_is_past starting c = absurd (false≢true c)
critical_is_past (wants need) c = absurd (false≢true c)
critical_is_past (holds need) c = (refl, omega arith)
critical_is_past (passed need) c = (refl, omega arith)
critical_is_past (asking need session epoch) c = (refl, omega arith)
critical_is_past done c = absurd (false≢true c)

-- A task that is between the lock and its release is done, and the lock is not its own, once it has had
-- three turns, whatever the answers are and whatever the other tasks do and is done to the state in
-- between, if at the start a lock that is held belongs to a task between the lock and its release.
pub lock_is_released :
    (i : ℕ) (es : List Event) (y : System)
    → IsHeld y
    → is_critical (y.stages i) ≡ true
    → 3 ≤ count_turns i es
    → ((happen_all es y).stages i ≡ done) × ((happen_all es y).shared.lock ≢ some i)
lock_is_released i es y held has turns =
    let (past, few) = critical_is_past (y.stages i) has in
    let ended = ends_by_rank i es y past (omega arith) in
    (ended, λ e. false≢true (sym (ap is_critical ended) ∙ happen_all-IsHeld es y held i e))
