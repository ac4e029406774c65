-- ===== src/World/Yields.antt =====
-- A logic of the computations of a task: what holds if one succeeds.
use grindr_rs.Prelude.{subst, Bool, true, false, ◌≡◌, refl, arith}
use grindr_rs.Error.{GrindrError, Result, ok}
use package.grindr_rs.World.{Env, World, M, ◌>>=◌, >>=-eq-ok, modify, pure, fail, get, await, wait}
use grindr_rs.Prelude.{if◌then◌else◌}

-- If `m` succeeds from `w`, its value and the world after it satisfy `Q`.
pub record Yields {env : Env} {A : Type 0} (m : M env A) (w : World env)
    (Q : A → World env → Type 0) : Type 0 where
  pub holds : (a : A) (v : World env) → m w ≡ (ok a, v) → Q a v

module _ {env : Env} {A B : Type 0} {P : A → World env → Type 0} {Q : B → World env → Type 0} where
  pub bind-Yields :
      {m : M env A} {f : A → M env B} {w : World env}
      → Yields m w P
      → ((a : A) (v : World env) → P a v → Yields (f a) v Q)
      → Yields (m >>= f) w Q
  bind-Yields {m} {f} {w} h k = record {
    holds = λ b w' e.
        let (a, v, here, rest) = >>=-eq-ok m f w e in (k a v (h.holds a v here)).holds b w' rest;
  }

module _ {env : Env} where
  pub await-Yields : (w : World env) → Yields await w (λ _ v. v ≡ wait w)
  unfolding await
  await-Yields w = record { holds = λ a v e. ground arith }

  -- A step that reads: it may fail, and leaves the world as it is.
  pub read-Yields :
      {A : Type 0} (r : World env → Result A) (w : World env)
      → Yields (λ u. (r u, u)) w (λ a v. (r w ≡ ok a) × (v ≡ w))
  read-Yields r w = record { holds = λ a v e. (ground arith, ground arith) }

  pub get-Yields :
      {A : Type 0} (f : World env → A) (w : World env)
      → Yields (get f) w (λ a v. (a ≡ f w) × (v ≡ w))
  get-Yields f w = record { holds = λ a v e. (ground arith, ground arith) }

  -- Any computation, with nothing known of it.
  pub some-Yields : {A : Type 0} (m : M env A) (w : World env) → Yields m w (λ a v. m w ≡ (ok a, v))
  some-Yields m w = record { holds = λ a v e. e }

  pub pure-Yields :
      {A : Type 0} {Q : A → World env → Type 0} (a : A) (w : World env)
      → Q a w
      → Yields (pure a) w Q
  pure-Yields {A} {Q = Q} a w h = record {
    holds = λ b v e. subst (Q b) (pair_snd e) (subst (λ x. Q x w) (pair_fst e) h);
  }
    where
      pair_fst :
          {b : A} {v : World env} → ◌≡◌ {A = Result A × World env} (ok a, w) (ok b, v) → a ≡ b
      pair_fst e = ground arith

      pair_snd :
          {b : A} {v : World env} → ◌≡◌ {A = Result A × World env} (ok a, w) (ok b, v) → w ≡ v
      pair_snd e = ground arith

  pub modify-Yields :
      {Q : Unit {0} → World env → Type 0} (f : World env → World env) (w : World env)
      → Q tt (f w)
      → Yields (modify f) w Q
  modify-Yields {Q} f w h = record { holds = λ a v e. subst (Q a) (after e) h }
    where
      after :
          {a : Unit {0}} {v : World env}
          → ◌≡◌ {A = Result (Unit {0}) × World env} (ok tt, f w) (ok a, v)
          → f w ≡ v
      after e = ground arith

  pub fail-Yields :
      {A : Type 0} {Q : A → World env → Type 0} (x : GrindrError) (w : World env)
      → Yields (fail {A = A} x) w Q
  fail-Yields x w = record { holds = λ b v e. absurd (ground arith) }

  pub if-Yields :
      {A : Type 0} {Q : A → World env → Type 0} (b : Bool) {c d : M env A} {w : World env}
      → (b ≡ true → Yields c w Q)
      → (b ≡ false → Yields d w Q)
      → Yields (if b then c else d) w Q
  if-Yields true hc hd = hc refl
  if-Yields false hc hd = hd refl
