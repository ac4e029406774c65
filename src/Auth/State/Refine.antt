-- ===== src/Auth/State/Refine.antt =====
-- src/auth.rs: the state and the epochs that its tasks hold, against the cell.
use grindr_rs.Prelude.{
  zero, Option-cases, is_some_and, subst, length, inl, inr, ◌⊎◌, ℕ, suc, ◌+◌, ◌≤◌, ◌<◌, true, false,
  Option, none, some, List, [], ◌∷◌, map, All, get_elem?, get_or, if◌then◌else◌, ◌==◌, ◌≡◌, refl,
  ap, arith,
}
use grindr_rs.Error.{GrindrError, unauthorized, banned}
use package.grindr_rs.Auth.Session.{Session}
use package.grindr_rs.Auth.State.{
  settle, store_if_current, AuthState, u64_mod, new, set_session_if_current, clear_session,
  set_active, note_failure, emit_refresh_failure, count_failure,
}
use package.grindr_rs.Auth.State.Tickets.{Shared, start, commit_held, step, run, is_current, cell}
use package.grindr_rs.Auth.State.Cell
use package.grindr_rs.Auth.State.Cell.{
  Cell, void, Event, asked, stored, signed_out, activity, failure, counted, told, ends_session,
  empty_cell,
}

-- No task holds an epoch that is still to come.
abbrev IsValid : Shared → Type 0
IsValid s = All (λ e. e ≤ s.auth.sign_out_epoch) s.epochs

-- An epoch is current exactly if the request is live.
get_or-live :
    (epochs : List ℕ) (i now : ℕ)
    → get_or (map (is_current now) epochs) i false
      ≡ is_some_and (get_elem? epochs i) (is_current now)
get_or-live [] i now = refl
get_or-live (e ∷ es) zero now = refl
get_or-live (e ∷ es) (suc i) now = get_or-live es i now

-- The end of the session voids every request.
live-ended :
    (epochs : List ℕ) (now : ℕ)
    → All (λ e. e ≤ now) epochs
    → map (is_current (suc now)) epochs ≡ map void (map (is_current now) epochs)
live-ended [] now h = refl
live-ended (e ∷ es) now (h, hs) = ground (arith, live-ended es now hs)

All-le :
    (epochs : List ℕ) {now later : ℕ}
    → now ≤ later
    → All (λ e. e ≤ now) epochs
    → All (λ e. e ≤ later) epochs
All-le [] le h = tt
All-le (e ∷ es) le (h, hs) = (omega arith, All-le es le hs)

module _ (s : Shared) (after : AuthState) where
  cell_ended :
      IsValid s
      → after.session ≡ none
      → after.sign_out_epoch ≡ suc s.auth.sign_out_epoch
      → cell (record s { auth = after }) ≡ Cell.end (cell s)
  cell_ended v lost moved = rw (lost, moved, live-ended s.epochs s.auth.sign_out_epoch v) refl

  cell_kept :
      (value : Option Session)
      → after.session ≡ value
      → after.sign_out_epoch ≡ s.auth.sign_out_epoch
      → cell (record s { auth = after }) ≡ record (cell s) { value = value }
  cell_kept value same here = rw (same, here) refl

-- Telling of a failure ends the session or leaves it and the epoch as they are.
told_of :
    (e : GrindrError) (a : AuthState)
    → suc a.sign_out_epoch < u64_mod
    → let after = emit_refresh_failure e a in
      ((ends_session e ≡ true)
        × (after.session ≡ none)
        × (after.sign_out_epoch ≡ suc a.sign_out_epoch))
      ⊎ ((ends_session e ≡ false)
          × (after.session ≡ a.session)
          × (after.sign_out_epoch ≡ a.sign_out_epoch))
unfolding emit_refresh_failure clear_session
told_of (unauthorized code m) a small = inl (refl, refl, omega arith)
told_of (banned info) a small = inl (refl, refl, omega arith)
told_of e a small = inr (refl, ground arith, ground arith)

-- A commit is taken exactly if its epoch is the state's.
committed :
    (session : Session) (epoch : ℕ) (a : AuthState)
    → let (after, taken) = set_session_if_current session epoch a in
      (((epoch == a.sign_out_epoch) ≡ true)
        × (taken ≡ true)
        × (after.session ≡ some session)
        × (after.sign_out_epoch ≡ a.sign_out_epoch))
      ⊎ (((epoch == a.sign_out_epoch) ≡ false) × (taken ≡ false) × (after ≡ a))
unfolding set_session_if_current store_if_current
committed session epoch a = ground arith

clear_session-ends :
    (a : AuthState)
    → suc a.sign_out_epoch < u64_mod
    → let after = clear_session a in
      (after.session ≡ none) × (after.sign_out_epoch ≡ suc a.sign_out_epoch)
unfolding clear_session
clear_session-ends a small = (refl, omega arith)

commit_refines :
    (s : Shared) (session : Session) (i : ℕ)
    → ((step (stored session i) s).0, cell (step (stored session i) s).1)
      ≡ Cell.step (stored session i) (cell s)
unfolding step Cell.step
commit_refines s session i = elim (Option-cases (get_elem? s.epochs i)) [
  | inl none_held ↦ rw (none_held, get_or-live s.epochs i s.auth.sign_out_epoch, none_held) refl
  | inr (epoch, held) ↦ elim (committed session epoch s.auth) [
    | inl (current, taken, stored_now, same) ↦
        rw (held, get_or-live s.epochs i s.auth.sign_out_epoch, held, current, taken)
          (ap (λ c. (true, c))
            (cell_kept s (set_session_if_current session epoch s.auth).0 (some session) stored_now
              same))
    | inr (stale, refused, same) ↦
        rw (held, get_or-live s.epochs i s.auth.sign_out_epoch, held, stale, refused, same) refl
  ]
]

told_refines :
    (s : Shared) (e : GrindrError)
    → IsValid s
    → suc s.auth.sign_out_epoch < u64_mod
    → cell (record s { auth = emit_refresh_failure e s.auth })
      ≡ (if ends_session e then Cell.end (cell s) else cell s)
told_refines s e v small = elim (told_of e s.auth small) [
  | inl (ending, lost, moved) ↦
      rw ending (cell_ended s (emit_refresh_failure e s.auth) v lost moved)
  | inr (kept, same, here) ↦
      rw kept (cell_kept s (emit_refresh_failure e s.auth) s.auth.session same here)
]

abbrev counted_in : GrindrError → ℕ → Shared → Shared
counted_in e now s = record s { auth = count_failure e now s.auth }

-- A step of the state is a step of the cell, unless the epoch wraps around.
step_refines :
    (event : Event) (s : Shared)
    → IsValid s
    → suc s.auth.sign_out_epoch < u64_mod
    → ((step event s).0, cell (step event s).1) ≡ Cell.step event (cell s)
unfolding step Cell.step set_active note_failure count_failure
step_refines asked s v small = ground arith
step_refines (stored session i) s v small = commit_refines s session i
step_refines signed_out s v small =
    ap (λ c. (true, c))
      (cell_ended s (clear_session s.auth) v (clear_session-ends s.auth small).0
        (clear_session-ends s.auth small).1)
step_refines (activity active) s v small =
    ap (λ c. (true, c)) (cell_kept s (set_active active s.auth) s.auth.session refl refl)
step_refines (failure e now) s v small =
    ap (λ c. (true, c)) (told_refines (counted_in e now s) e v small)
step_refines (counted e now) s v small = refl
step_refines (told e) s v small = ap (λ c. (true, c)) (told_refines s e v small)

-- One event moves the epoch on by at most one, never back.
step-epoch :
    (event : Event) (s : Shared)
    → suc s.auth.sign_out_epoch < u64_mod
    → let after = (step event s).1.auth.sign_out_epoch in
      (s.auth.sign_out_epoch ≤ after) × (after ≤ suc s.auth.sign_out_epoch)
unfolding step set_session_if_current clear_session set_active note_failure count_failure
    store_if_current settle
step-epoch asked s small = omega arith
step-epoch (stored session i) s small = ground arith
step-epoch signed_out s small = omega arith
step-epoch (activity active) s small = omega arith
step-epoch (failure e now) s small = ground (arith, told_of e (count_failure e now s.auth) small)
step-epoch (counted e now) s small = omega arith
step-epoch (told e) s small = ground (arith, told_of e s.auth small)

step-IsValid :
    (event : Event) (s : Shared)
    → IsValid s
    → suc s.auth.sign_out_epoch < u64_mod
    → IsValid (step event s).1
unfolding step
step-IsValid asked s v small = (omega arith, v)
step-IsValid (stored session i) s v small = elim (Option-cases (get_elem? s.epochs i)) [
  | inl none_held ↦ rw none_held v
  | inr (epoch, held) ↦
      let up = (step-epoch (stored session i) s small).0 in
      rw held (
        All-le s.epochs
          (subst (λ o. s.auth.sign_out_epoch ≤ (commit_held session o s).1.auth.sign_out_epoch) held
            up)
          v)
]
step-IsValid event s v small = All-le s.epochs (step-epoch event s small).0 v

-- From any state in which no task holds an epoch that is still to come.
run_refines_from :
    (events : List Event) (s : Shared)
    → IsValid s
    → s.auth.sign_out_epoch + length events < u64_mod
    → run events s ≡ Cell.run events (cell s)
unfolding run Cell.run
run_refines_from [] s v few = refl
run_refines_from (event ∷ events) s v few =
    let here = step-epoch event s (omega arith) in
    rw
      (
        ← step_refines event s v (omega arith),
        run_refines_from events (step event s).1 (step-IsValid event s v (omega arith))
            (omega arith),
      )
      refl

-- Over a history of fewer than 2^64 events of a new client, the state shows what the cell shows: after
-- each event the same session, and of each session that a task stores whether it was taken.
pub run_refines :
    (initial : Option Session) (events : List Event)
    → length events < u64_mod
    → run events (start initial) ≡ Cell.run events (empty_cell initial)
unfolding new
run_refines initial events few = run_refines_from events (start initial) tt (omega arith)
