-- ===== src/Retry/Attempts.antt =====
-- How often the operation is tried, with which limits between, and what the result says.
use go_api_boot.Base.{
  ℕ, zero, suc, ◌+◌, ◌^◌, ◌≤◌, ◌<◌, List, [], ◌∷◌, ◌++◌, Result, ok, err, ◌≡◌, refl, arith, ◌∙◌,
  append_assoc,
}
use go_api_boot.Base.Exec.{Exec}
use go_api_boot.Retry.{
  RateLimiter, RetryError, wait_failed, all_attempts_failed, delay, after_attempt, after_wait,
  attempts, retry_with_exponential_backoff,
}

module _ {W E : Type 0} (rate : RateLimiter W E) (base_delay : ℕ) (fn : Exec W E (Unit {0})) where
  open rate use {Limiter, new_limiter, wait, set_limit}

  -- What the last thing done was, by the result.
  abbrev pub Explains : Result (RetryError E) (Unit {0}) → W → Type 0
  Explains (ok _) w = (before : W) × (fn before ≡ (ok tt, w))
  Explains (err (wait_failed e)) w = (l : Limiter) × (before : W) × (wait l before ≡ (err e, w))
  Explains (err all_attempts_failed) w = Unit

  after_attempt-Explains :
      (again : ℕ → Limiter → Exec W (RetryError E) (Unit {0})) (retries : ℕ) (l : Limiter)
      (before : W)
      → ((k : ℕ) (l : Limiter) (w : W) → Explains (again k l w).0 (again k l w).1)
      → (r : Result E (Unit {0})) (w : W) → fn before ≡ (r, w)
      → Explains
          (after_attempt rate base_delay fn again retries l r w).0
          (after_attempt rate base_delay fn again retries l r w).1
  unfolding after_attempt
  after_attempt-Explains again retries l before ih (ok u) w e = (before, e)
  after_attempt-Explains again retries l before ih (err x) w e = ih _ _ w

  after_wait-Explains :
      (again : ℕ → Limiter → Exec W (RetryError E) (Unit {0})) (retries : ℕ) (l : Limiter)
      (before : W)
      → ((k : ℕ) (l : Limiter) (w : W) → Explains (again k l w).0 (again k l w).1)
      → (r : Result E Limiter) (w : W) → wait l before ≡ (r, w)
      → Explains
          (after_wait rate base_delay fn again retries r w).0
          (after_wait rate base_delay fn again retries r w).1
  unfolding after_wait
  after_wait-Explains again retries l before ih (ok l') w e =
      after_attempt-Explains again retries l' w ih (fn w).0 (fn w).1 refl
  after_wait-Explains again retries l before ih (err x) w e = (l, before, e)

  attempts-Explains :
      (left retries : ℕ) (l : Limiter) (w : W)
      → Explains
          (attempts rate base_delay fn left retries l w).0
          (attempts rate base_delay fn left retries l w).1
  unfolding attempts
  attempts-Explains zero retries l w = tt
  attempts-Explains (suc left) retries l w =
      after_wait-Explains (attempts rate base_delay fn left) retries l w (attempts-Explains left)
        (wait l w).0 (wait l w).1 refl

  -- A success is that of the last call of the operation, and an error other than that all attempts
  -- failed is that of the last wait: nothing happens to the world behind either.
  pub retry-Explains :
      (max_retries : ℕ) (w : W)
      → Explains
          (retry_with_exponential_backoff rate base_delay fn max_retries w).0
          (retry_with_exponential_backoff rate base_delay fn max_retries w).1
  unfolding retry_with_exponential_backoff
  retry-Explains max_retries w = attempts-Explains max_retries 0 (new_limiter base_delay 1) w

-- How a world counts the calls of the operation, and records the limits of the waits, last first.
pub record Meter {W E : Type 0} (rate : RateLimiter W E) (fn : Exec W E (Unit {0})) : Type 0 where
  pub interval : rate.Limiter → ℕ
  pub interval-new_limiter : (d b : ℕ) → interval (rate.new_limiter d b) ≡ d
  pub interval-set_limit : (l : rate.Limiter) (d : ℕ) → interval (rate.set_limit l d) ≡ d
  pub calls : W → ℕ
  pub calls-wait : (l : rate.Limiter) (w : W) → calls (rate.wait l w).1 ≡ calls w
  pub calls-fn : (w : W) → calls (fn w).1 ≡ calls w + 1
  pub waits : W → List ℕ
  pub waits-wait : (l : rate.Limiter) (w : W) → waits (rate.wait l w).1 ≡ interval l ∷ waits w
  pub waits-fn : (w : W) → waits (fn w).1 ≡ waits w

-- The limits of so many waits, from the one with number `retries` on, last first.
abbrev pub backoff : ℕ → ℕ → ℕ → List ℕ
backoff base_delay retries zero = []
backoff base_delay retries (suc n) =
    backoff base_delay (retries + 1) n ++ delay base_delay retries ∷ []

-- The calls of the operation, after so many waits out of as many as were allowed.
abbrev pub Calls : {E : Type 0} → Result (RetryError E) (Unit {0}) → ℕ → ℕ → ℕ → ℕ → Type 0
Calls (ok _) n left before after = (0 < n) × (after ≡ before + n)
Calls (err (wait_failed e)) n left before after = after + 1 ≡ before + n
Calls (err all_attempts_failed) n left before after = (n ≡ left) × (after ≡ before + n)

module _ {W E : Type 0} (rate : RateLimiter W E) (base_delay : ℕ) (fn : Exec W E (Unit {0}))
    (m : Meter rate fn) where
  open rate use {Limiter, new_limiter, wait, set_limit}
  open m use {interval, calls, waits}

  -- So many waits, with the limits from the given number on.
  pub record Metered (left retries : ℕ) (w : W) (r : Result (RetryError E) (Unit {0})) (w' : W)
      : Type 0 where
    pub rounds : ℕ
    pub bounded : rounds ≤ left
    pub limits : waits w' ≡ backoff base_delay retries rounds ++ waits w
    pub called : Calls r rounds left (calls w) (calls w')

  Calls-later :
      (r : Result (RetryError E) (Unit {0})) (n left before after k : ℕ)
      → k ≡ before + 1
      → Calls r n left k after
      → Calls r (suc n) (suc left) before after
  Calls-later (ok _) n left before after k e c = omega arith
  Calls-later (err (wait_failed x)) n left before after k e c = omega arith
  Calls-later (err all_attempts_failed) n left before after k e c = omega arith

  Metered-later :
      (left retries : ℕ) (w w1 w2 w' : W) (r : Result (RetryError E) (Unit {0}))
      → waits w1 ≡ delay base_delay retries ∷ waits w
      → calls w1 ≡ calls w
      → waits w2 ≡ waits w1
      → calls w2 ≡ calls w1 + 1
      → Metered left (retries + 1) w2 r w'
      → Metered (suc left) retries w r w'
  Metered-later left retries w w1 w2 w' r h1 h2 h3 h4 t =
      let h : calls w2 ≡ calls w + 1 = omega arith in
      record {
        rounds = suc t.rounds;
        bounded = omega (arith, t.bounded);
        limits =
            t.limits
            ∙ rw (
              h3,
              h1,
              append_assoc (backoff base_delay (retries + 1) t.rounds)
                  (delay base_delay retries ∷ []) (waits w),
            );
        called = Calls-later r t.rounds left _ _ _ h t.called;
      }

  abbrev Rounds : ℕ → Type 0
  Rounds left =
      (retries : ℕ) (l : Limiter) (w : W)
      → interval l ≡ delay base_delay retries
      → Metered left retries w (attempts rate base_delay fn left retries l w).0
          (attempts rate base_delay fn left retries l w).1

  after_attempt-Metered :
      (left retries : ℕ) (l : Limiter) (w w1 w2 : W) (r : Result E (Unit {0}))
      → Rounds left
      → waits w1 ≡ delay base_delay retries ∷ waits w
      → calls w1 ≡ calls w
      → waits w2 ≡ waits w1
      → calls w2 ≡ calls w1 + 1
      → let out =
          after_attempt rate base_delay fn (attempts rate base_delay fn left) retries l r w2 in
        Metered (suc left) retries w out.0 out.1
  unfolding after_attempt
  after_attempt-Metered left retries l w w1 w2 (ok _) ih h1 h2 h3 h4 = record {
    rounds = 1;
    bounded = omega arith;
    limits = h3 ∙ h1;
    called = omega arith;
  }
  after_attempt-Metered left retries l w w1 w2 (err _) ih h1 h2 h3 h4 =
      Metered-later left retries w w1 w2 _ _ h1 h2 h3 h4
        (ih (retries + 1) _ w2 (m.interval-set_limit l (delay base_delay (retries + 1))))

  after_wait-Metered :
      (left retries : ℕ) (l : Limiter) (w w1 : W) (r : Result E Limiter)
      → Rounds left
      → waits w1 ≡ delay base_delay retries ∷ waits w
      → calls w1 ≡ calls w
      → let out = after_wait rate base_delay fn (attempts rate base_delay fn left) retries r w1 in
        Metered (suc left) retries w out.0 out.1
  unfolding after_wait
  after_wait-Metered left retries l w w1 (ok l') ih h1 h2 =
      after_attempt-Metered left retries l' w w1 (fn w1).1 (fn w1).0 ih h1 h2 (m.waits-fn w1)
        (m.calls-fn w1)
  after_wait-Metered left retries l w w1 (err x) ih h1 h2 = record {
    rounds = 1;
    bounded = omega arith;
    limits = h1;
    called = omega arith;
  }

  attempts-Metered : (left : ℕ) → Rounds left
  unfolding attempts
  attempts-Metered zero retries l w e = record {
    rounds = 0;
    bounded = omega arith;
    limits = refl;
    called = omega arith;
  }
  attempts-Metered (suc left) retries l w e =
      after_wait-Metered left retries l w (wait l w).1 (wait l w).0 (attempts-Metered left)
        (m.waits-wait l w ∙ rw e) (m.calls-wait l w)

  -- For a base delay of 64 bits: there are at most `max_retries` calls of the limiter's Wait, and at
  -- the one with number k, counted from 0, the limit of the limiter is one event in the base delay
  -- times 2 to the k, modulo 2 to the 64; how long Wait then blocks is the package's matter. The
  -- operation is called once behind every wait that succeeds: exactly `max_retries` times if all
  -- attempts failed, at least once on success.
  pub retry-Metered :
      (max_retries : ℕ) (w : W)
      → base_delay < 2 ^ 64
      → Metered max_retries 0 w
          (retry_with_exponential_backoff rate base_delay fn max_retries w).0
          (retry_with_exponential_backoff rate base_delay fn max_retries w).1
  unfolding retry_with_exponential_backoff delay
  retry-Metered max_retries w h =
      attempts-Metered max_retries 0 (new_limiter base_delay 1) w
        (m.interval-new_limiter base_delay 1 ∙ omega arith)
