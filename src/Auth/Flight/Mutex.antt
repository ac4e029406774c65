-- ===== src/Auth/Flight/Mutex.antt =====
-- src/auth.rs `refresh_lock`: how many refreshes are under way.
use grindr_rs.Prelude.{
  ℕ, Bool, true, false, Option, some, List, [], ◌∷◌, ◌==◌, ==_iff, ◌≡◌, refl, sym, ◌∙◌, ◌≢◌, ap,
  arith, inl, inr, Bool-cases,
}
use mathlib.Core.Bool.{false≢true}
use package.grindr_rs.Auth.Flight.{
  Stage, starting, wants, holds, passed, asking, done, Shared, step, System, Event, task, other,
  happen, happen_all,
}
use package.grindr_rs.Auth.Flight.Moves.{
  is_critical, Moves, kept, taken, released, step-Moves, set_stage-same, set_stage-other,
}

abbrev pub is_asking : Stage → Bool
is_asking (asking need session epoch) = true
is_asking stage = false

-- Only the holder of the lock is between the lock and its release.
abbrev pub IsLocked : System → Type 0
IsLocked y = (i : ℕ) → is_critical (y.stages i) ≡ true → y.shared.lock ≡ some i

-- After the step, the task of the turn holds the lock if it is between.
own :
    (me : ℕ) (stage : Stage) (lock : Option ℕ) (after : Stage × Shared)
    → Moves me stage lock after
    → (is_critical stage ≡ true → lock ≡ some me)
    → is_critical after.0 ≡ true
    → after.1.lock ≡ some me
own me stage lock after (kept same same_lock) h c = same_lock ∙ h (sym same ∙ c)
own me stage lock after (taken free between mine) h c = mine
own me stage lock after (released was is_not free) h c = absurd (false≢true (sym is_not ∙ c))

-- A lock that another task holds is left alone.
others :
    (me : ℕ) (stage : Stage) (lock : Option ℕ) (after : Stage × Shared) (j : ℕ)
    → Moves me stage lock after
    → (is_critical stage ≡ true → lock ≡ some me)
    → j ≢ me
    → lock ≡ some j
    → after.1.lock ≡ some j
others me stage lock after j (kept same same_lock) h ne e = same_lock ∙ e
others me stage lock after j (taken free between mine) h ne e = absurd (ground arith)
others me stage lock after j (released was is_not free) h ne e =
    let mine = h was in absurd (ground arith)

pub happen-IsLocked : (e : Event) (y : System) → IsLocked y → IsLocked (happen e y)
unfolding happen
happen-IsLocked (other op) y h = h
happen-IsLocked (task t) y h = λ j c.
    let stage = y.stages t.task in
    let after = step t stage y.shared in
    let moves = step-Moves t stage y.shared in
    elim (Bool-cases (j == t.task)) [
      | inl me ↦
          let same = set_stage-same y.stages t.task after.0 j me in
          own t.task stage y.shared.lock after moves (h t.task) (sym (ap is_critical same) ∙ c)
          ∙ ap some (sym ((==_iff j t.task).0 me))
      | inr another ↦
          let same = set_stage-other y.stages t.task after.0 j another in
          others t.task stage y.shared.lock after j moves (h t.task)
            (λ e. cc ((==_iff j t.task).1 e, another)) (h j (sym (ap is_critical same) ∙ c))
    ]

pub happen_all-IsLocked : (es : List Event) (y : System) → IsLocked y → IsLocked (happen_all es y)
unfolding happen_all
happen_all-IsLocked [] y h = h
happen_all-IsLocked (e ∷ es) y h = happen_all-IsLocked es (happen e y) (happen-IsLocked e y h)

pub critical_of_asking : (stage : Stage) → is_asking stage ≡ true → is_critical stage ≡ true
critical_of_asking (asking need session epoch) e = refl
critical_of_asking starting e = ground arith
critical_of_asking (wants need) e = ground arith
critical_of_asking (holds need) e = refl
critical_of_asking (passed need) e = refl
critical_of_asking done e = ground arith

-- Two tasks that are between the lock and its release are one and the same.
pub only_one :
    (y : System) (i j : ℕ)
    → IsLocked y
    → is_critical (y.stages i) ≡ true
    → is_critical (y.stages j) ≡ true
    → i ≡ j
only_one y i j h ci cj = let ei = h i ci in let ej = h j cj in ground arith

-- However the steps of the tasks that refresh behind `refresh_lock`, before the token runs out or
-- after it was refused, and what else is done to the state interleave, while one of these tasks waits
-- for the answer to its refresh no other of them waits for one, if none is between the lock and its
-- release at the start.
pub one_refresh_at_a_time :
    (es : List Event) (y : System) (i j : ℕ)
    → ((k : ℕ) → is_critical (y.stages k) ≡ false)
    → is_asking ((happen_all es y).stages i) ≡ true
    → i ≢ j
    → is_asking ((happen_all es y).stages j) ≡ false
one_refresh_at_a_time es y i j calm waits ne =
    let locked : IsLocked y = λ k c. absurd (false≢true (sym (calm k) ∙ c)) in
    let end : System = happen_all es y in
    elim (Bool-cases (is_asking (end.stages j))) [
      | inr free ↦ free
      | inl also ↦ absurd (
          ne (
            only_one end i j (happen_all-IsLocked es y locked) (critical_of_asking _ waits)
              (critical_of_asking _ also)))
    ]
