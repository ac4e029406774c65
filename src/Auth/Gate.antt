-- ===== src/Auth/Gate.antt =====
-- src/auth.rs: `RefreshGate`, the back-off of failed token refreshes. An instant is a number of
-- milliseconds on the monotonic clock; `Instant::checked_add` fails past the end of its range.
pub mod Ladder
use grindr_rs.Prelude.{
  ℕ, ◌+◌, ◌-◌, ◌*◌, ◌^◌, min, Bool, true, false, ◌||◌, Option, none, some, List, [], ◌∷◌, length,
  get_or, is_some_and, if◌then◌else◌, ltb,
}
use grindr_rs.Error.{GrindrError, refuses_client_version}

pub record RefreshGate : Type 0 where
  pub failures : ℕ
  pub retry_at : Option ℕ
  pub reported : Bool
  pub client_refused : Bool

-- `RefreshGate::default()`.
abbrev pub fresh_gate : RefreshGate
fresh_gate = record { failures = 0; retry_at = none; reported = false; client_refused = false }

abbrev pub refresh_cooldowns : List ℕ
refresh_cooldowns = 5_000 ∷ 15_000 ∷ 30_000 ∷ 60_000 ∷ []

abbrev pub u32_max : ℕ
u32_max = 4_294_967_295

-- Seconds of a 64-bit signed count, in milliseconds.
abbrev pub instant_limit : ℕ
instant_limit = 9_223_372_036_854_775_808_000

checked_add : ℕ → ℕ → Option ℕ
checked_add at d = if ltb (at + d) instant_limit then some (at + d) else none

saturating_inc : ℕ → ℕ
saturating_inc n = min (n + 1) u32_max

-- The methods take the reading of `Instant::now()` that they make.
unfoldable pub is_blocked : RefreshGate → ℕ → Bool
is_blocked g now = g.client_refused || is_some_and g.retry_at λ at. ltb now at

cooldown : ℕ → ℕ
cooldown failures = get_or refresh_cooldowns (min failures (length refresh_cooldowns - 1)) 0

unfoldable pub record_failure : RefreshGate → ℕ → RefreshGate
unfolding checked_add saturating_inc cooldown
record_failure g now = record g {
  retry_at = checked_add now (cooldown g.failures);
  failures = saturating_inc g.failures;
}

unfoldable pub record_failure_of : RefreshGate → GrindrError → ℕ → RefreshGate
unfolding record_failure
record_failure_of g error now = record (record_failure g now) {
  client_refused = refuses_client_version error;
}

unfoldable pub clear_backoff : RefreshGate → RefreshGate
clear_backoff g = record g { failures = 0; retry_at = none }

-- The new gate, and whether a reported failure was owed a recovery.
unfoldable pub take_owed_recovery : RefreshGate → RefreshGate × Bool
unfolding clear_backoff
take_owed_recovery g =
    (record (clear_backoff g) { client_refused = false; reported = false }, g.reported)
