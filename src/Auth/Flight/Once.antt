-- ===== src/Auth/Flight/Once.antt =====
-- src/auth.rs `refresh_after_unauthorized`: how often a refused token is refreshed.
use grindr_rs.Prelude.{
  ℕ, suc, ◌≤◌, true, false, List, [], ◌∷◌, Text, ◌==◌, ==_iff, ◌≡◌, refl, sym, ◌∙◌, ap, arith, inl,
  inr, Bool-cases, All,
}
use mathlib.Core.Bool.{false≢true}
use package.grindr_rs.Auth.Flight.{
  Stage, starting, wants, holds, passed, asking, done, Turn, step, System, Event, task, other,
  set_stage, happen, happen_all,
}
use package.grindr_rs.Auth.Flight.Mutex.{IsLocked, happen-IsLocked, only_one}
use package.grindr_rs.Auth.Flight.Moves.{is_critical, set_stage-same, set_stage-other}
use package.grindr_rs.Auth.Flight.Kept.{Lacks, IsNew, apply-Lacks}
use package.grindr_rs.Auth.Flight.Does.{count_for, is_bound, Does, nothing, stores, step-Does}

-- A refusal leads to at most one refresh that stores a session.
data Spent (id : Text) (y : System) : Type 0 where
  unspent : count_for id y.shared.stored ≡ 0 → Spent id y
  spent :
      count_for id y.shared.stored ≡ 1
      → Lacks id y.shared.auth.session
      → ((k : ℕ) → is_bound id (y.stages k) ≡ false)
      → Spent id y

critical_of_bound :
    (id : Text) (stage : Stage) → is_bound id stage ≡ true → is_critical stage ≡ true
critical_of_bound id (passed need) e = refl
critical_of_bound id (asking need session epoch) e = refl
critical_of_bound id (holds need) e = refl
critical_of_bound id starting e = absurd (false≢true e)
critical_of_bound id (wants need) e = absurd (false≢true e)
critical_of_bound id done e = absurd (false≢true e)

-- If the task of the turn is the one that is bound or none is, none is after it is not.
none_bound :
    (id : Text) (y : System) (i : ℕ) (stage : Stage)
    → is_bound id stage ≡ false
    → ((j : ℕ) → (j == i) ≡ false → is_bound id (y.stages j) ≡ false)
    → (j : ℕ) → is_bound id (set_stage y.stages i stage j) ≡ false
none_bound id y i stage free rest j = elim (Bool-cases (j == i)) [
  | inl me ↦ ap (is_bound id) (set_stage-same y.stages i stage j me) ∙ free
  | inr another ↦ ap (is_bound id) (set_stage-other y.stages i stage j another) ∙ rest j another
]

-- Beside a bound task no other is.
others_free :
    (id : Text) (y : System) (i j : ℕ)
    → IsLocked y
    → is_bound id (y.stages i) ≡ true
    → (j == i) ≡ false
    → is_bound id (y.stages j) ≡ false
others_free id y i j locked bound another = elim (Bool-cases (is_bound id (y.stages j))) [
  | inr free ↦ free
  | inl also ↦
      let same =
        only_one y j i locked (critical_of_bound id _ also) (critical_of_bound id _ bound) in
      absurd (false≢true (sym another ∙ (==_iff j i).1 same))
]

turn-Spent :
    (id : Text) (t : Turn) (y : System)
    → IsLocked y
    → Does id (y.stages t.task) y.shared (step t (y.stages t.task) y.shared)
    → Spent id y
    → Spent id (happen (task t) y)
unfolding happen
turn-Spent id t y locked (nothing same keeps) (unspent zero) = unspent (same ∙ zero)
turn-Spent id t y locked (nothing same keeps) (spent one lacks free) =
    let (lacks_after, free_after) = keeps lacks (free t.task) in
    spent (same ∙ one) lacks_after (
      none_bound id y t.task (step t (y.stages t.task) y.shared).0 free_after (λ j another. free j))
turn-Spent id t y locked (stores bound more lacks free) (unspent zero) =
    spent (more ∙ ap suc zero) lacks (
      none_bound id y t.task (step t (y.stages t.task) y.shared).0 free
        (λ j another. others_free id y t.task j locked bound another))
turn-Spent id t y locked (stores bound more lacks free) (spent one had none_is) =
    absurd (false≢true (sym (none_is t.task) ∙ bound))

happen-Spent :
    (id : Text) (e : Event) (y : System)
    → IsNew id e
    → IsLocked y
    → Spent id y
    → Spent id (happen e y)
unfolding happen
happen-Spent id (task t) y new locked h =
    turn-Spent id t y locked (step-Does id t (y.stages t.task) y.shared new) h
happen-Spent id (other op) y new locked (unspent zero) = unspent zero
happen-Spent id (other op) y new locked (spent one lacks free) =
    spent one (apply-Lacks id op y.shared.auth new lacks) free

happen_all-Spent :
    (id : Text) (es : List Event) (y : System)
    → All (IsNew id) es
    → IsLocked y
    → Spent id y
    → Spent id (happen_all es y)
unfolding happen_all
happen_all-Spent id [] y new locked h = h
happen_all-Spent id (e ∷ es) y (new, news) locked h =
    happen_all-Spent id es (happen e y) news (happen-IsLocked e y locked)
      (happen-Spent id e y new locked h)

count-Spent : (id : Text) (y : System) → Spent id y → count_for id y.shared.stored ≤ 1
count-Spent id y (unspent zero) = omega arith
count-Spent id y (spent one lacks free) = omega arith

-- However the steps of the tasks and what else is done to the state interleave, at most one refresh for
-- the refusal of a token stores a session, if nothing is stored and no task is between the lock and its
-- release at the start, and no session that a turn, a commit or a put brings has that token.
pub one_refresh_per_token :
    (id : Text) (es : List Event) (y : System)
    → ((k : ℕ) → is_critical (y.stages k) ≡ false)
    → y.shared.stored ≡ []
    → All (IsNew id) es
    → count_for id (happen_all es y).shared.stored ≤ 1
one_refresh_per_token id es y calm nothing_stored new =
    let locked : IsLocked y = λ k c. absurd (false≢true (sym (calm k) ∙ c)) in
    count-Spent id (happen_all es y)
      (happen_all-Spent id es y new locked (unspent (ap (count_for id) nothing_stored)))
