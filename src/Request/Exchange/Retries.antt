-- ===== src/Request/Exchange/Retries.antt =====
-- src/request.rs: the bounds of the retries of an exchange.
use grindr_rs.Prelude.{
  List, subst, ℕ, zero, suc, ◌+◌, ◌≤◌, Option, none, some, Text, ◌≡◌, refl, arith,
}
use grindr_rs.Prelude.{◌&&◌, not, ◌==◌, subst}
use grindr_rs.Signing.{signing_reject}
use grindr_rs.World.{bind_result, Sent, Env, World, M, ◌>>=◌}
use grindr_rs.Request.Trail.{
  Under, Trail-weaken, Trail-trans, Traced, Any, Trail, bind-Traced, silent-Traced, await-Traced,
  weaken-Traced, if-Traced,
}
use package.grindr_rs.Request.Exchange.{
  Result, session_access, is_success, reauthorize_same_profile, SigningReject, clear_signing,
  Answer, RawResponse, Request, round_fresh, round_refreshed, after_signing, after_rejection,
  again_with, finish, Again, Authorization, rounds, exchange,
}
use grindr_rs.Auth.Session.{Authorization}
use grindr_rs.Request.Body.{is_signed, Request}
use grindr_rs.Rest.ApiError.{RawResponse}
use grindr_rs.Request.Attempt.{Answer}
use grindr_rs.Request.Attempt.Sends.{attempt-Under}
use grindr_rs.Signing.{SigningReject}
use grindr_rs.Auth.Calls.Authorize.Sends.{
  authorize-Traced, reauthorize-Traced, refresh_after_unauthorized-Traced,
}
use grindr_rs.Auth.Calls.Authorize.{authorize, reauthorize_same_profile}
use grindr_rs.Rest.Block.{is_success}
use grindr_rs.Error.{err, ok, Result}

module _ (env : Env) (p : Option Text) where
  -- A continuation of the loop, under an authorization of the profile `p`.
  abbrev Continues : ℕ → (Authorization → M env RawResponse) → Type 0
  Continues n k = (a : Authorization) → a.profile_id ≡ p → Traced (Under p) n Any (k a)

  abbrev MayContinue : ℕ → Again env → Type 0
  MayContinue n none = Unit
  MayContinue n (some k) = Continues n k

  finish-Traced : (n : ℕ) (answer : Answer) → Traced (Under p) n Any (finish env answer)
  unfolding finish
  finish-Traced n answer = weaken-Traced (silent-Traced _ (λ w. refl)) (omega arith)

  again_with-Traced :
      (n : ℕ) (k : Authorization → M env RawResponse) (a : Authorization)
      → a.profile_id ≡ p
      → Continues n k
      → Traced (Under p) n Any (again_with env k a)
  unfolding again_with
  again_with-Traced n k a same h =
      weaken-Traced
        (bind-Traced
          (subst
            (λ q.
              Traced (Under q) 0 (λ (r : Authorization). r.profile_id ≡ q)
                (reauthorize_same_profile env a))
            same (reauthorize-Traced env a))
          λ renewed same'. h renewed same')
        (omega arith)

  after_rejection-Traced :
      (n : ℕ) (k : Again env) (a : Authorization) (answer : Answer) (r : Option SigningReject)
      → a.profile_id ≡ p
      → MayContinue n k
      → Traced (Under p) n Any (after_rejection env k a answer r)
  unfolding after_rejection clear_signing
  after_rejection-Traced n (some k) a answer (some SigningReject.retryable) same h =
      again_with-Traced n k a same h
  after_rejection-Traced n none a answer (some SigningReject.retryable) same h =
      finish-Traced n answer
  after_rejection-Traced n k a answer (some SigningReject.fatal) same h =
      weaken-Traced
        (bind-Traced (bind-Traced await-Traced λ _ _. silent-Traced _ (λ w. refl))
          λ _ _. finish-Traced 0 answer)
        (omega arith)
  after_rejection-Traced n k a answer none same h = finish-Traced n answer

  after_signing-Traced :
      (n : ℕ) (request : Request) (k : Again env) (a : Authorization) (answer : Answer)
      → a.profile_id ≡ p
      → MayContinue n k
      → Traced (Under p) n Any (after_signing env request k a answer)
  unfolding after_signing
  after_signing-Traced n request k a answer same h =
      if-Traced (is_signed request.body && not (is_success answer.status))
        (λ _.
          after_rejection-Traced n k a answer (signing_reject (env.read_reject answer.body)) same h)
        (λ _. finish-Traced n answer)

  round_refreshed-Traced :
      (n : ℕ) (request : Request) (k : Again env)
      → MayContinue n k
      → Continues (suc n) (round_refreshed env request k)
  unfolding round_refreshed
  round_refreshed-Traced n request k h a same =
      weaken-Traced
        (bind-Traced (attempt-Under env p a same request)
          λ answer _. after_signing-Traced n request k a answer same h)
        (omega arith)

  round_fresh-Traced :
      (n : ℕ) (request : Request) (refreshed : Authorization → M env RawResponse)
      (k tried : Again env)
      → Continues n refreshed
      → MayContinue n k
      → MayContinue n tried
      → Continues (suc n) (round_fresh env request refreshed k tried)
  unfolding round_fresh
  round_fresh-Traced n request refreshed k tried h hk ht a same =
      weaken-Traced
        (bind-Traced (attempt-Under env p a same request) λ answer _.
          if-Traced (answer.status == 401)
            (λ _.
              weaken-Traced
                (bind-Traced (refresh_after_unauthorized-Traced env p a.session_id) λ renewed _.
                  if-Traced renewed (λ _. again_with-Traced n refreshed a same h)
                    (λ _. after_signing-Traced n request tried a answer same ht))
                (omega arith))
            (λ _. after_signing-Traced n request k a answer same hk))
        (omega arith)

  weaken-Continues :
      {m n : ℕ} (k : Authorization → M env RawResponse) → m ≤ n → Continues m k → Continues n k
  weaken-Continues k h c a same = weaken-Traced (c a same) h

  -- With `r` refreshes and `s` new signatures left, the loop makes at most `1 + r + s` attempts.
  rounds-Traced : (r s : ℕ) (request : Request) → Continues (suc (r + s)) (rounds env r s request)
  unfolding rounds
  rounds-Traced zero zero request a same =
      weaken-Traced (round_refreshed-Traced 0 request none tt a same) (omega arith)
  rounds-Traced zero (suc s) request a same =
      weaken-Traced
        (round_refreshed-Traced (suc s) request (some (rounds env zero s request))
          (weaken-Continues _ (omega arith) (rounds-Traced zero s request)) a same)
        (omega arith)
  rounds-Traced (suc r) zero request a same =
      weaken-Traced
        (round_fresh-Traced (suc r) request (rounds env r zero request) none none
          (weaken-Continues _ (omega arith) (rounds-Traced r zero request)) tt tt a same)
        (omega arith)
  rounds-Traced (suc r) (suc s) request a same =
      weaken-Traced
        (round_fresh-Traced (suc (suc r + s)) request _ (some _) (some _)
          (weaken-Continues _ (omega arith) (rounds-Traced r (suc s) request))
          (weaken-Continues _ (omega arith) (rounds-Traced (suc r) s request))
          (weaken-Continues _ (omega arith) (rounds-Traced r s request)) a same)
        (omega arith)

after_authorize :
    (env : Env) (request : Request) (before : List Sent) (r : Result Authorization) (w : World env)
    → ((p : Option Text) → Trail (Under p) 0 before w.sent)
    → (p : Option Text) × Trail
        (Under p)
        3
        before
        (bind_result (r, w) (rounds env 1 1 request)).1.sent
after_authorize env request before (ok a) w h = (
  a.profile_id,
  Trail-trans (h a.profile_id) ((rounds-Traced env a.profile_id 1 1 request a refl).trail w),
)
after_authorize env request before (err e) w h = (none, Trail-weaken (omega arith) (h none))

-- Whatever the server answers and other tasks do, an exchange sends at most three requests with an
-- authorization, and all of them under one and the same profile; the first authorization header of
-- each is that of its authorization, and a request without one has no authorization header.
pub exchange_same_profile :
    (env : Env) (request : Request) (w : World env)
    → (p : Option Text) × Trail (Under p) 3 w.sent (exchange env session_access request w).1.sent
unfolding exchange ◌>>=◌
exchange_same_profile env request w =
    after_authorize env request w.sent (authorize env w).0 (authorize env w).1
      (λ p. (authorize-Traced env p).trail w)
