-- ===== src/Retry.antt =====
-- RetryWithExponentialBackoff of server/util.go. The package `rate` and the operation are the
-- section's arguments: both may change the world `W`.
pub mod Attempts
pub mod Success
use go_api_boot.Base.{ℕ, zero, suc, ◌+◌, ◌*◌, ◌^◌, ◌%◌, Result, ok, err}
use go_api_boot.Base.Exec.{Exec}

-- A limiter of the package `rate`: a limit is given by the time between two events, in nanoseconds.
pub record RateLimiter (W E : Type 0) : Type 1 where
  pub Limiter : Type 0
  pub new_limiter : ℕ → ℕ → Limiter
  pub wait : Limiter → Exec W E Limiter
  pub set_limit : Limiter → ℕ → Limiter

pub data RetryError (E : Type 0) : Type 0 where
  -- limiter.Wait failed: the context is done, or its deadline comes too soon.
  wait_failed : E → RetryError E
  all_attempts_failed : RetryError E

-- baseDelay * time.Duration(1<<retries), as the bits of an int64
unfoldable pub delay : ℕ → ℕ → ℕ
delay base_delay retries = (base_delay * 2 ^ retries) % 2 ^ 64

module _ {W E : Type 0} (rate : RateLimiter W E) (base_delay : ℕ) (fn : Exec W E (Unit {0})) where
  open rate use {Limiter, new_limiter, wait, set_limit}

  -- Behind an attempt: the end, or a longer delay and another round.
  unfoldable pub after_attempt :
      (ℕ → Limiter → Exec W (RetryError E) (Unit {0}))
      → ℕ
      → Limiter
      → Result E (Unit {0})
      → Exec W (RetryError E) (Unit {0})
  unfolding delay
  after_attempt again retries l (ok _) w = (ok tt, w)
  after_attempt again retries l (err _) w =
      again (retries + 1) (set_limit l (delay base_delay (retries + 1))) w

  unfoldable pub after_wait :
      (ℕ → Limiter → Exec W (RetryError E) (Unit {0}))
      → ℕ
      → Result E Limiter
      → Exec W (RetryError E) (Unit {0})
  unfolding after_attempt
  after_wait again retries (err e) w = (err (wait_failed e), w)
  after_wait again retries (ok l) w = let (r, w') = fn w in after_attempt again retries l r w'

  -- The loop, with the number of rounds that are left: maxRetries - retries.
  unfoldable pub attempts : ℕ → ℕ → Limiter → Exec W (RetryError E) (Unit {0})
  unfolding after_wait
  attempts zero retries l w = (err all_attempts_failed, w)
  attempts (suc left) retries l w =
      let (r, w') = wait l w in after_wait (attempts left) retries r w'

  -- RetryWithExponentialBackoff
  unfoldable pub retry_with_exponential_backoff : ℕ → Exec W (RetryError E) (Unit {0})
  unfolding attempts
  retry_with_exponential_backoff max_retries = attempts max_retries 0 (new_limiter base_delay 1)
