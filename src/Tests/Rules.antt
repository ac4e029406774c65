-- ===== src/Tests/Rules.antt =====
-- Instances of the rules of the shared state, of the answers and of the keys.
use grindr_rs.Prelude.{
  text_eq, ℕ, ◌+◌, ◌||◌, true, false, none, some, List, [], ◌∷◌, codes, ◌≡◌, refl, arith, ltb,
}
use grindr_rs.Prelude.Int.{as_i32}
use grindr_rs.Error.{GrindrError, rate_limited, refuses_client_version, banned, from_code, http}
use grindr_rs.Signing.{from_key, from_stored, export}
use grindr_rs.Signing.Stored.{from_stored-export}
use grindr_rs.Auth.Session.{Session}
use grindr_rs.Auth.Gate.{fresh_gate, is_blocked, record_failure_of, take_owed_recovery}
use grindr_rs.Auth.Gate.Ladder.{ladder, fail_all, blocked_after_failures}
use grindr_rs.Auth.State.{
  emit_refresh_failure, note_failure, clear_session, AuthState, new, Op, sign_out, commit, failure,
  apply, set_session_if_current,
}
use grindr_rs.Auth.State.Events.{Announced, session_lost}
use grindr_rs.Auth.State.Cell
use grindr_rs.Auth.State.Cell.{step, Event, asked, stored, signed_out, failure, empty_cell}
use grindr_rs.Auth.State.Tickets.{run, start}
use grindr_rs.Auth.State.Refine.{run_refines}
use grindr_rs.Rest.Block.{is_edge_block, is_cloudflare_challenge, block_kind}
use grindr_rs.Rest.ApiError.{
  ban_info, error_of_status, body_message, body_code, extract_api_error, parse_api_error,
}
use grindr_rs.Rest.ApiError.Classes.{SaysBanned, banned-SaysBanned}
use grindr_rs.Rest.Search.{find_ignore_ascii_case}
use grindr_rs.Rest.Search.First.{IsFirst, find_ignore_ascii_case-IsFirst}
use package.grindr_rs.Tests.Setting.{codec, crypto, session_until, refusal, ban}

abbrev signed_in : AuthState
signed_in = record {
  session = some (session_until 1);
  sign_out_epoch = 0;
  watched = some (session_until 1);
  observed = true;
  events = [];
  active = true;
  refresh_gate = fresh_gate;
}

abbrev later : Session
later = session_until 3600

-- The server refuses the session, and the client signs in anew.
abbrev trouble : List Op
trouble = failure rate_limited 1 ∷ failure refusal 9 ∷ sign_out ∷ []

-- Two tasks ask, the user signs out, a third asks; the first two are refused.
abbrev two_sign_ins : List Event
two_sign_ins =
    asked ∷ asked ∷ signed_out ∷ asked ∷ stored later 1 ∷ stored later 0 ∷ failure refusal 9 ∷ []

run_refines_example : run two_sign_ins (start none) ≡ Cell.run two_sign_ins (empty_cell none)
run_refines_example = run_refines none two_sign_ins (omega arith)

late_sign_ins_refused :
    run two_sign_ins (start none)
    ≡ (true, none)
      ∷ (true, none)
      ∷ (true, none)
      ∷ (true, none)
      ∷ (false, none)
      ∷ (true, some later)
      ∷ (true, none)
      ∷ []
unfolding run step new set_session_if_current clear_session note_failure emit_refresh_failure
    take_owed_recovery
late_sign_ins_refused = refl

abbrev calm_ops : List Op
calm_ops = failure rate_limited 1 ∷ commit later 0 ∷ []

session_here : signed_in.session ≡ none → ⊥
session_here e = ground arith

session_gone : (apply (failure refusal 9) signed_in).session ≡ none
unfolding apply
session_gone = refl

session_lost_example : Announced (failure refusal 9) signed_in
session_lost_example = session_lost (failure refusal 9) signed_in session_here session_gone

abbrev idle : AuthState
idle = record signed_in { active = false }

abbrev failures : List (GrindrError × ℕ)
failures = (rate_limited, 1) ∷ (http (codes "x"), 7_000) ∷ []

blocked_after_failures_example :
    is_blocked (record_failure_of (fail_all fresh_gate failures) rate_limited 50_000) 60_000
    ≡ (refuses_client_version rate_limited || ltb 60_000 (50_000 + ladder 2))
blocked_after_failures_example =
    blocked_after_failures failures rate_limited 50_000 60_000 (omega arith)

ban-run : parse_api_error codec (codes "{}") 403 ≡ banned ban
unfolding parse_api_error block_kind is_cloudflare_challenge is_edge_block extract_api_error
    body_code body_message from_code error_of_status ban_info codes text_eq as_i32
ban-run = refl

banned-SaysBanned_example : SaysBanned codec (codes "{}") 403 ban
banned-SaysBanned_example = banned-SaysBanned codec (codes "{}") 403 ban (omega arith) ban-run

from_stored-export_example :
    from_stored crypto (export crypto (from_key crypto (codes "k") (codes "7")))
    ≡ some (from_key crypto (codes "k") (codes "7"))
from_stored-export_example = from_stored-export crypto (codes "k") (codes "7")

find_ignore_ascii_case-IsFirst_example : IsFirst (codes "a <TITLE>") (codes "<title") (some 2)
unfolding codes find_ignore_ascii_case
find_ignore_ascii_case-IsFirst_example =
    find_ignore_ascii_case-IsFirst (codes "a <TITLE>") (codes "<title") (λ e. ground arith)
