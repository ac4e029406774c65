-- ===== src/Auth/Flight/Held.antt =====
-- src/auth.rs `refresh_lock`: whose it is.
use grindr_rs.Prelude.{
  ℕ, true, Option, some, List, [], ◌∷◌, ◌==◌, ==_iff, ◌≡◌, sym, ◌∙◌, ◌≢◌, ap, arith, inl, inr,
  Bool-cases,
}
use package.grindr_rs.Auth.Flight.{
  Stage, Shared, step, System, Event, task, other, happen, happen_all,
}
use package.grindr_rs.Auth.Flight.Moves.{
  is_critical, Moves, kept, taken, released, step-Moves, set_stage-same, set_stage-other,
}

-- A lock that is held belongs to a task that is between.
abbrev pub IsHeld : System → Type 0
IsHeld y = (i : ℕ) → y.shared.lock ≡ some i → is_critical (y.stages i) ≡ true

-- After the step, the task of the turn is between if it holds the lock.
own_back :
    (me : ℕ) (stage : Stage) (lock : Option ℕ) (after : Stage × Shared)
    → Moves me stage lock after
    → (lock ≡ some me → is_critical stage ≡ true)
    → after.1.lock ≡ some me
    → is_critical after.0 ≡ true
own_back me stage lock after (kept same same_lock) h e = same ∙ h (sym same_lock ∙ e)
own_back me stage lock after (taken free between mine) h e = between
own_back me stage lock after (released was is_not free) h e = absurd (ground (arith, sym free ∙ e))

-- A step gives the lock to no other task.
others_back :
    (me : ℕ) (stage : Stage) (lock : Option ℕ) (after : Stage × Shared) (j : ℕ)
    → Moves me stage lock after
    → j ≢ me
    → after.1.lock ≡ some j
    → lock ≡ some j
others_back me stage lock after j (kept same same_lock) ne e = sym same_lock ∙ e
others_back me stage lock after j (taken free between mine) ne e = absurd (ground arith)
others_back me stage lock after j (released was is_not free) ne e =
    absurd (ground (arith, sym free ∙ e))

happen-IsHeld : (e : Event) (y : System) → IsHeld y → IsHeld (happen e y)
unfolding happen
happen-IsHeld (other op) y h = h
happen-IsHeld (task t) y h = λ j e.
    let stage = y.stages t.task in
    let after = step t stage y.shared in
    let moves = step-Moves t stage y.shared in
    elim (Bool-cases (j == t.task)) [
      | inl me ↦
          let same = set_stage-same y.stages t.task after.0 j me in
          ap is_critical same
          ∙ own_back t.task stage y.shared.lock after moves (h t.task)
              (e ∙ ap some ((==_iff j t.task).0 me))
      | inr another ↦
          let same = set_stage-other y.stages t.task after.0 j another in
          ap is_critical same
          ∙ h j (
              others_back t.task stage y.shared.lock after j moves
                (λ q. cc ((==_iff j t.task).1 q, another)) e)
    ]

pub happen_all-IsHeld : (es : List Event) (y : System) → IsHeld y → IsHeld (happen_all es y)
unfolding happen_all
happen_all-IsHeld [] y h = h
happen_all-IsHeld (e ∷ es) y h = happen_all-IsHeld es (happen e y) (happen-IsHeld e y h)
