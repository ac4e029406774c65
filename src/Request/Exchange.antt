-- ===== src/Request/Exchange.antt =====
-- src/request.rs `exchange`: a request under the session, sent again after a refresh for a 401 and
-- after a new signature for a rejected one, each at most once.
pub mod Retries
use grindr_rs.Prelude.{
  ℕ, zero, suc, Bool, true, false, ◌&&◌, not, Option, none, some, Text, if◌then◌else◌, is_some,
  ◌==◌,
}
use grindr_rs.Error.{Result, ok, err}
use grindr_rs.World.{Env, World, M, ◌>>=◌, ◌>>◌, pure, lift, modify, await}
use package.grindr_rs.Request.Body.{Request, is_signed}
use package.grindr_rs.Request.Attempt.{anonymous, Answer, attempt}
use grindr_rs.Auth.Session.{Authorization}
use grindr_rs.Rest.ApiError.{raw_or_blocked, RawResponse}
use grindr_rs.Auth.Calls.Authorize.{authorize, refresh_after_unauthorized, reauthorize_same_profile}
use grindr_rs.Signing.{signing_reject, SigningReject}
use grindr_rs.Rest.Block.{is_success}

-- `Access`: without or with the session.
pub data Access : Type 0 where
  anonymous_access : Access
  session_access : Access

module _ (env : Env) where
  unfoldable pub drop_signing : World env → World env
  drop_signing w = record w { signing = none; signing_watch = none }

  -- src/rest.rs `clear_signing`.
  unfoldable pub clear_signing : M env (Unit {0})
  unfolding drop_signing
  clear_signing = do await; modify drop_signing

  abbrev Again : Type 0
  Again = Option (Authorization → M env RawResponse)

  unfoldable pub finish : Answer → M env RawResponse
  finish answer = lift (raw_or_blocked env.codec answer.status answer.body)

  -- A `continue` under a new authorization of the same profile.
  unfoldable pub again_with :
      (Authorization → M env RawResponse) → Authorization → M env RawResponse
  again_with k authorization = do renewed ← reauthorize_same_profile env authorization; k renewed

  unfoldable pub after_rejection :
      Again → Authorization → Answer → Option SigningReject → M env RawResponse
  after_rejection (some k) authorization answer (some SigningReject.retryable) =
      again_with k authorization
  after_rejection none authorization answer (some SigningReject.retryable) = finish answer
  after_rejection on_resign authorization answer (some SigningReject.fatal) = do
    clear_signing
    finish answer
  after_rejection on_resign authorization answer none = finish answer

  -- The second `if` of the loop and its end.
  unfoldable pub after_signing : Request → Again → Authorization → Answer → M env RawResponse
  after_signing request on_resign authorization answer =
      if is_signed request.body && not (is_success answer.status)
      then after_rejection on_resign authorization answer
          (signing_reject (env.read_reject answer.body))
      else finish answer

  -- A round with a refresh left: `on_resign` is for an answer that is no 401, and `on_resign_tried`
  -- for a 401 whose refresh failed.
  unfoldable pub round_fresh :
      Request
      → (Authorization → M env RawResponse)
      → Again
      → Again
      → Authorization
      → M env RawResponse
  round_fresh request on_refresh on_resign on_resign_tried authorization = do
    answer ← attempt env request (some authorization)
    if answer.status == 401
        then (refresh_after_unauthorized env authorization.session_id >>= λ renewed.
            if renewed
            then again_with on_refresh authorization
            else after_signing request on_resign_tried authorization answer)
        else after_signing request on_resign authorization answer

  -- A round after the refresh.
  unfoldable pub round_refreshed : Request → Again → Authorization → M env RawResponse
  round_refreshed request on_resign authorization = do
    answer ← attempt env request (some authorization)
    after_signing request on_resign authorization answer

  -- The loop: the numbers count the refreshes and the new signatures that are left, one each while
  -- `refreshed` and `resigned` are false.
  unfoldable pub rounds : ℕ → ℕ → Request → Authorization → M env RawResponse
  rounds zero zero request = round_refreshed request none
  rounds zero (suc s) request = round_refreshed request (some (rounds zero s request))
  rounds (suc r) zero request = round_fresh request (rounds r zero request) none none
  rounds (suc r) (suc s) request =
      round_fresh request (rounds r (suc s) request) (some (rounds (suc r) s request))
        (some (rounds r s request))

  unfoldable pub exchange : Access → Request → M env RawResponse
  exchange anonymous_access request = anonymous env request
  exchange session_access request = do
    authorization ← authorize env
    rounds 1 1 request authorization
