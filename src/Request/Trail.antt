-- ===== src/Request/Trail.antt =====
-- What a computation leaves on the wire: a logic of the requests that are recorded as sent.
use mathlib.Core.List.{append_assoc}
use grindr_rs.Prelude.{
  if◌then◌else◌, false, true, Bool, subst, refl, sym, ap, ◌∙◌, arith, ℕ, ◌+◌, ◌≤◌, Option, none,
  some, List, [], ◌∷◌, ◌++◌, Text, ◌≡◌, All,
}
use grindr_rs.World.{
  lift, fail, pure, attempted, ◌>>=◌, bind_result, await, bind_result, act, World, M, Act, wait,
  act_all, Env, Sent,
}
use grindr_rs.Auth.Session.{Authorization, authorization_header}
use grindr_rs.Headers.{Header}
use package.grindr_rs.Request.Body.Carried.{authorization_in}
use grindr_rs.Error.{GrindrError, err, ok, Result}

-- The authorization is one of the profile, and the headers carry it; without one they carry none.
abbrev pub Carries : Option Text → Option Authorization → List Header → Type 0
Carries p none headers = authorization_in headers ≡ none
Carries p (some a) headers =
    (a.profile_id ≡ p) × (authorization_in headers ≡ some (authorization_header a))

-- A request without the session, or under the profile.
abbrev pub Under : Option Text → Sent → Type 0
Under p s = Carries p s.authorization s.headers

-- How many of the requests carry an authorization.
abbrev pub weight : Option Authorization → ℕ
weight none = 0
weight (some a) = 1

abbrev pub count_authorized : List Sent → ℕ
count_authorized [] = 0
count_authorized (s ∷ ss) = weight s.authorization + count_authorized ss

-- From `before` to `after` the requests `news` were sent, each of which satisfies `Q`.
pub record Trail (Q : Sent → Type 0) (n : ℕ) (before after : List Sent) : Type 0 where
  pub news : List Sent
  pub split : after ≡ news ++ before
  pub under : All Q news
  pub few : count_authorized news ≤ n

All-append :
    (P : Sent → Type 0) (news olds : List Sent) → All P news × All P olds → All P (news ++ olds)
All-append P [] olds (hn, ho) = ho
All-append P (s ∷ news) olds ((here, hn), ho) = (here, All-append P news olds (hn, ho))

count_authorized-append :
    (xs ys : List Sent) → count_authorized (xs ++ ys) ≡ count_authorized xs + count_authorized ys
count_authorized-append [] ys = omega arith
count_authorized-append (x ∷ xs) ys = omega (arith, count_authorized-append xs ys)

module _ {Q : Sent → Type 0} where
  pub Trail-refl : (ss : List Sent) → Trail Q 0 ss ss
  Trail-refl ss = record { news = []; split = refl; under = tt; few = omega arith }

  pub Trail-trans :
      {m n : ℕ} {a b c : List Sent} → Trail Q m a b → Trail Q n b c → Trail Q (m + n) a c
  Trail-trans {m} {n} {a} {b} {c} x y = record {
    news = y.news ++ x.news;
    split = y.split ∙ ap (λ ss. y.news ++ ss) x.split ∙ sym (append_assoc y.news x.news a);
    under = All-append Q y.news x.news (y.under, x.under);
    few = omega (arith, x.few, y.few, count_authorized-append y.news x.news);
  }

  pub Trail-weaken : {m n : ℕ} {a b : List Sent} → m ≤ n → Trail Q m a b → Trail Q n a b
  Trail-weaken h x = record {
    news = x.news;
    split = x.split;
    under = x.under;
    few = omega (arith, x.few, h);
  }

-- A property of the value of a successful result.
abbrev pub OkAll : {A : Type 0} → (A → Type 0) → Result A → Type 0
OkAll R (ok a) = R a
OkAll R (err e) = Unit

act-sent : {env : Env} (a : Act) (w : World env) → (act a w).sent ≡ w.sent
act-sent (Act.on_auth op) w = refl
act-sent Act.drop_key w = refl
act-sent (Act.take_key stored) w = ground arith
act-sent (Act.rotate device user_agent) w = refl

act_all-sent : {env : Env} (acts : List Act) (w : World env) → (act_all acts w).sent ≡ w.sent
unfolding act_all
act_all-sent [] w = refl
act_all-sent (a ∷ acts) w = act_all-sent acts (act a w) ∙ act-sent a w

-- Other tasks leave the record of this one alone.
pub wait-sent : {env : Env} (w : World env) → (wait w).sent ≡ w.sent
unfolding wait
wait-sent {env} w = act_all-sent (env.others w.turn) w

module _ {env : Env} where
  -- `m` sends requests that satisfy `Q` alone, at most `n` of them with an authorization, and a value that
  -- it returns satisfies `R`.
  pub record Traced {A : Type 0} (Q : Sent → Type 0) (n : ℕ) (R : A → Type 0) (m : M env A)
      : Type 0 where
    pub trail : (w : World env) → Trail Q n w.sent (m w).1.sent
    pub value : (w : World env) → OkAll R (m w).0

module _ {env : Env} {Q : Sent → Type 0} {A B : Type 0} {R : A → Type 0} {S : B → Type 0} where
  bind-Trail :
      {n k : ℕ} (f : A → M env B) (b : List Sent) (r : Result A) (w : World env)
      → Trail Q n b w.sent
      → OkAll R r
      → ((a : A) → R a → Traced Q k S (f a))
      → Trail Q (n + k) b (bind_result (r, w) f).1.sent
  bind-Trail {n} {k} f b (ok a) w t v h = Trail-trans t ((h a v).trail w)
  bind-Trail {n} {k} f b (err e) w t v h = Trail-weaken (omega arith) t

  bind-value :
      {k : ℕ} (f : A → M env B) (r : Result A) (w : World env)
      → OkAll R r
      → ((a : A) → R a → Traced Q k S (f a))
      → OkAll S (bind_result (r, w) f).0
  bind-value f (ok a) w v h = (h a v).value w
  bind-value f (err e) w v h = tt

  -- The rule of `do`.
  pub bind-Traced :
      {n k : ℕ} {m : M env A} {f : A → M env B}
      → Traced Q n R m
      → ((a : A) → R a → Traced Q k S (f a))
      → Traced Q (n + k) S (m >>= f)
  unfolding ◌>>=◌
  bind-Traced {m = m} {f = f} t h = record {
    trail = λ w. bind-Trail f w.sent (m w).0 (m w).1 (t.trail w) (t.value w) h;
    value = λ w. bind-value f (m w).0 (m w).1 (t.value w) h;
  }

abbrev pub Any : {A : Type 0} → A → Type 0
Any a = Unit

pub OkAll-Any : {A : Type 0} (r : Result A) → OkAll Any r
OkAll-Any (ok a) = tt
OkAll-Any (err e) = tt

module _ {env : Env} {Q : Sent → Type 0} where
  -- The rule of a step that sends nothing.
  pub silent-Traced :
      {A : Type 0} (m : M env A) → ((w : World env) → (m w).1.sent ≡ w.sent) → Traced Q 0 Any m
  silent-Traced m h = record {
    trail = λ w. subst (λ s. Trail Q 0 w.sent s) (sym (h w)) (Trail-refl w.sent);
    value = λ w. OkAll-Any (m w).0;
  }

  pub await-Traced : Traced {env = env} Q 0 Any await
  unfolding await
  await-Traced = silent-Traced await wait-sent

  pub weaken-Traced :
      {A : Type 0} {R : A → Type 0} {m n : ℕ} {c : M env A}
      → Traced Q m R c
      → m ≤ n
      → Traced Q n R c
  weaken-Traced t h = record { trail = λ w. Trail-weaken h (t.trail w); value = λ w. t.value w }

  pub if-Traced :
      {A : Type 0} {R : A → Type 0} {n : ℕ} (b : Bool) {c d : M env A}
      → (b ≡ true → Traced Q n R c)
      → (b ≡ false → Traced Q n R d)
      → Traced Q n R (if b then c else d)
  if-Traced true hc hd = hc refl
  if-Traced false hc hd = hd refl

  pub Any-Traced :
      {A : Type 0} {R : A → Type 0} {n : ℕ} {c : M env A} → Traced Q n R c → Traced Q n Any c
  Any-Traced {c = c} t = record { trail = λ w. t.trail w; value = λ w. OkAll-Any (c w).0 }

  pub attempted-Traced :
      {A : Type 0} {R : A → Type 0} {n : ℕ} {c : M env A}
      → Traced Q n R c
      → Traced Q n Any (attempted c)
  attempted-Traced t = record { trail = λ w. t.trail w; value = λ w. tt }

  pub returns-Traced :
      {A : Type 0} {R : A → Type 0} (a : A) → R a → Traced {env = env} Q 0 R (pure a)
  returns-Traced a h = record { trail = λ w. Trail-refl w.sent; value = λ w. h }

  pub fails-Traced :
      {A : Type 0} {R : A → Type 0} (e : GrindrError) → Traced {env = env} {A = A} Q 0 R (fail e)
  fails-Traced e = record { trail = λ w. Trail-refl w.sent; value = λ w. tt }

  -- A result is as it is said to be if it is no error.
  pub lift-Traced :
      {A : Type 0} (R : A → Type 0) (r : Result A)
      → ((a : A) → r ≡ ok a → R a)
      → Traced {env = env} Q 0 R (lift r)
  lift-Traced R (ok a) h = returns-Traced a (h a refl)
  lift-Traced R (err e) h = fails-Traced e
