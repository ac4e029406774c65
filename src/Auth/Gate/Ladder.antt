-- ===== src/Auth/Gate/Ladder.antt =====
-- src/auth.rs: the ladder of cooldowns.
use grindr_rs.Prelude.{
  ℕ, zero, suc, ◌+◌, ◌≤◌, ◌<◌, min, false, ◌||◌, List, [], ◌∷◌, ◌≡◌, refl, sym, ◌∙◌, arith, ltb,
  lt→ltb,
}
use native.Mathlib.Decide.{dec_le}
use grindr_rs.Error.{GrindrError, refuses_client_version}
use package.grindr_rs.Auth.Gate.{
  RefreshGate, fresh_gate, u32_max, instant_limit, is_blocked, checked_add, saturating_inc,
  cooldown, record_failure, record_failure_of, clear_backoff, take_owed_recovery,
}

-- The wait after `n` failures in a row, and one more.
pub ladder : ℕ → ℕ
ladder zero = 5_000
ladder (suc zero) = 15_000
ladder (suc (suc zero)) = 30_000
ladder (suc (suc (suc n))) = 60_000

cooldown-ladder : (n : ℕ) → cooldown n ≡ ladder n
unfolding cooldown ladder
cooldown-ladder zero = refl
cooldown-ladder (suc zero) = refl
cooldown-ladder (suc (suc zero)) = refl
cooldown-ladder (suc (suc (suc n))) = let e : min (suc (suc (suc n))) 3 ≡ 3 = omega arith in rw e

ladder-le : (n : ℕ) → ladder n ≤ 60_000
unfolding ladder
ladder-le zero = omega arith
ladder-le (suc zero) = omega arith
ladder-le (suc (suc zero)) = omega arith
ladder-le (suc (suc (suc n))) = omega arith

ladder_top : (n : ℕ) → 3 ≤ n → ladder n ≡ 60_000
unfolding ladder
ladder_top zero h = absurd (omega arith)
ladder_top (suc zero) h = absurd (omega arith)
ladder_top (suc (suc zero)) h = absurd (omega arith)
ladder_top (suc (suc (suc n))) h = refl

-- Failures in a row, the oldest first.
abbrev pub fail_all : RefreshGate → List (GrindrError × ℕ) → RefreshGate
fail_all g [] = g
fail_all g ((e, now) ∷ fs) = fail_all (record_failure_of g e now) fs

abbrev count_from : ℕ → List (GrindrError × ℕ) → ℕ
count_from n [] = n
count_from n (f ∷ fs) = count_from (n + 1) fs

-- The counter saturates, far above the last step of the ladder.
fail_all_failures :
    (g : RefreshGate) (n : ℕ) (fs : List (GrindrError × ℕ))
    → g.failures ≡ min n u32_max
    → (fail_all g fs).failures ≡ min (count_from n fs) u32_max
unfolding record_failure_of record_failure saturating_inc
fail_all_failures g n [] h = h
fail_all_failures g n ((e, now) ∷ fs) h =
    fail_all_failures (record_failure_of g e now) (n + 1) fs (omega arith)

ladder_saturated : (n : ℕ) → ladder (min n u32_max) ≡ ladder n
ladder_saturated n = elim (dec_le n u32_max) [
  | yes h ↦ let e : min n u32_max ≡ n = omega arith in rw e
  | no h ↦
      let e : min n u32_max ≡ u32_max = omega arith in
      rw e (ladder_top u32_max (omega arith) ∙ sym (ladder_top n (omega arith)))
]

-- After failures in a row from a fresh gate, the last at `t`, at least a minute before the end of the
-- clock, the gate is shut for the wait of the
-- ladder (5, 15, 30, then 60 s), and for good if the last error refused the client's version.
pub blocked_after_failures :
    (fs : List (GrindrError × ℕ)) (e : GrindrError) (t now : ℕ)
    → t + 60_000 < instant_limit
    → is_blocked (record_failure_of (fail_all fresh_gate fs) e t) now
      ≡ (refuses_client_version e || ltb now (t + ladder (count_from 0 fs)))
unfolding is_blocked record_failure_of record_failure checked_add
blocked_after_failures fs e t now h =
    let n = (fail_all fresh_gate fs).failures in
    let wait : cooldown n ≡ ladder (count_from 0 fs) =
      rw (cooldown-ladder n, fail_all_failures fresh_gate 0 fs (omega arith))
        (ladder_saturated (count_from 0 fs)) in
    rw wait (
      rw (
        lt→ltb (t + ladder (count_from 0 fs)) instant_limit
          (omega (arith, ladder-le (count_from 0 fs)))))

-- A gate whose back-off was cleared lets a refresh through, unless the version was refused.
pub open_after_clear :
    (g : RefreshGate) (now : ℕ) → is_blocked (clear_backoff g) now ≡ g.client_refused
unfolding is_blocked clear_backoff
open_after_clear g now = ground arith

pub open_after_success :
    (g : RefreshGate) (now : ℕ) → is_blocked (take_owed_recovery g).0 now ≡ false
unfolding is_blocked take_owed_recovery
open_after_success g now = ground arith
