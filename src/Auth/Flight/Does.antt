-- ===== src/Auth/Flight/Does.antt =====
-- src/auth.rs: what one step of a task does to the session and to the refreshes that are stored for a
-- refused token.
use grindr_rs.Prelude.{
  ℕ, suc, ◌+◌, Bool, true, false, Option, none, some, List, [], ◌∷◌, Text, text_eq, eq_of_text_eq,
  if◌then◌else◌, ◌≡◌, refl, sym, ◌∙◌, arith, inl, inr, Bool-cases, Option-cases,
}
use grindr_rs.Error.{session_cleared, Result, ok, err}
use grindr_rs.Auth.Gate.{is_blocked}
use grindr_rs.Auth.Calls.Refresh.{not_signed_in}
use package.grindr_rs.Auth.Session.{Session}
use package.grindr_rs.Auth.State.{set_session_if_current}
use package.grindr_rs.Auth.Flight.{
  and_then, Need, soon, refused, Stage, starting, wants, holds, passed, asking, done, Shared, Turn,
  needed, release, look_again, take, ask, answered, first_look, step,
}
use package.grindr_rs.Auth.Flight.Kept.{
  has_token, Lacks, IsNewAnswer, commit-Lacks, taken-Lacks, note_failure-Lacks,
}

abbrev pub is_for : Text → Need → Bool
is_for id soon = false
is_for id (refused other_id) = text_eq other_id id

-- How often a refresh for the refusal of a token stored a session.
abbrev pub count_for : Text → List Need → ℕ
count_for id [] = 0
count_for id (need ∷ needs) = (if is_for id need then 1 else 0) + count_for id needs

-- A task that will ask for the refusal of the token, whatever becomes of the session.
abbrev pub is_bound : Text → Stage → Bool
is_bound id (passed need) = is_for id need
is_bound id (asking need session epoch) = is_for id need
is_bound id stage = false

-- What a step does to the token, the session and the count.
pub data Does (id : Text) (stage : Stage) (s : Shared) (after : Stage × Shared) : Type 0 where
  nothing :
      count_for id after.1.stored ≡ count_for id s.stored
      → (Lacks id s.auth.session
          → is_bound id stage ≡ false
          → (Lacks id after.1.auth.session × (is_bound id after.0 ≡ false)))
      → Does id stage s after
  stores :
      is_bound id stage ≡ true
      → count_for id after.1.stored ≡ suc (count_for id s.stored)
      → Lacks id after.1.auth.session
      → is_bound id after.0 ≡ false
      → Does id stage s after

nothing_found :
    (id other_id : Text) (found : Option Session)
    → other_id ≡ id
    → Lacks id found
    → and_then found (λ s. if has_token other_id s then some s else none) ≡ none
nothing_found id other_id none same h = refl
nothing_found id other_id (some s) same h = rw (same, h) refl

-- The refusal of a token that the session does not have needs no refresh.
found-is_for :
    (id : Text) (need : Need) (session : Session) (s : Shared) (now : ℕ)
    → needed need s.auth now ≡ some session
    → Lacks id s.auth.session
    → is_for id need ≡ false
unfolding needed
found-is_for id soon session s now e h = refl
found-is_for id (refused other_id) session s now e h = elim (Bool-cases (text_eq other_id id)) [
  | inr another ↦ another
  | inl same ↦
      let empty = nothing_found id other_id s.auth.session (eq_of_text_eq other_id id same) h in
      absurd (ground (arith, sym empty ∙ e))
]

take-Does :
    (id : Text) (t : Turn) (need : Need) (lock : Option ℕ) (s : Shared)
    → Does id (wants need) s (take t need lock s)
unfolding take
take-Does id t need none s = nothing refl (λ h b. (h, refl))
take-Does id t need (some i) s = nothing refl (λ h b. (h, refl))

look_again-Does :
    (id : Text) (t : Turn) (need : Need) (found : Option Session) (s : Shared)
    → needed need s.auth t.now ≡ found
    → Does id (holds need) s (look_again t need found s)
unfolding look_again release
look_again-Does id t need none s e = nothing refl (λ h b. (h, refl))
look_again-Does id t need (some session) s e =
    elim (Bool-cases (is_blocked s.auth.refresh_gate t.instant)) [
      | inl shut ↦ rw shut (nothing refl (λ h b. (h, refl)))
      | inr lets ↦ rw lets (nothing refl (λ h b. (h, found-is_for id need session s t.now e h)))
    ]

ask-Does :
    (id : Text) (t : Turn) (need : Need) (found : Option Session) (s : Shared)
    → Does id (passed need) s (ask t need found s)
unfolding ask release
ask-Does id t need none s =
    nothing refl (λ h b. (note_failure-Lacks id not_signed_in t.instant s.auth h, refl))
ask-Does id t need (some session) s = nothing refl (λ h b. (h, b))

answered-Does :
    (id : Text) (t : Turn) (need : Need) (session : Session) (epoch : ℕ) (answer : Result Session)
    (s : Shared)
    → IsNewAnswer id answer
    → Does id (asking need session epoch) s (answered t need epoch answer s)
unfolding answered release
answered-Does id t need session epoch (err e) s new =
    nothing refl (λ h b. (note_failure-Lacks id e t.instant s.auth h, refl))
answered-Does id t need session epoch (ok fresh) s new =
    elim (Bool-cases (set_session_if_current fresh epoch s.auth).1) [
      | inr refused_it ↦
          rw refused_it
            (nothing refl (λ h b. (note_failure-Lacks id session_cleared t.instant s.auth h, refl)))
      | inl taken ↦ elim (Bool-cases (is_for id need)) [
        | inl mine ↦
            rw taken (
              stores mine (rw mine (omega arith)) (taken-Lacks id fresh epoch s.auth new taken)
                refl)
        | inr another ↦ rw taken (
            nothing (rw another (omega arith))
              (λ h b. (commit-Lacks id fresh epoch s.auth new h, refl)))
      ]
    ]

pub step-Does :
    (id : Text) (t : Turn) (stage : Stage) (s : Shared)
    → IsNewAnswer id t.answer
    → Does id stage s (step t stage s)
unfolding step first_look
step-Does id t starting s new = elim (Option-cases (needed soon s.auth t.now)) [
  | inl none_needed ↦ rw none_needed (nothing refl (λ h b. (h, refl)))
  | inr (session, e) ↦ rw e (nothing refl (λ h b. (h, refl)))
]
step-Does id t (wants need) s new = take-Does id t need s.lock s
step-Does id t (holds need) s new = look_again-Does id t need (needed need s.auth t.now) s refl
step-Does id t (passed need) s new = ask-Does id t need s.auth.session s
step-Does id t (asking need session epoch) s new =
    answered-Does id t need session epoch t.answer s new
step-Does id t done s new = nothing refl (λ h b. (h, b))
