-- ===== src/Retry/Success.antt =====
-- RetryWithExponentialBackoff of server/util.go: what its success says of the world behind it.
use go_api_boot.Base.{ℕ, zero, suc, ◌+◌, ok, Result-cases, ◌≡◌, inl, inr}
use go_api_boot.Base.Exec.{Exec}
use go_api_boot.Retry.{
  RateLimiter, delay, after_attempt, after_wait, attempts, retry_with_exponential_backoff,
}

module _ {W E : Type 0} (rate : RateLimiter W E) (base_delay : ℕ) (fn : Exec W E (Unit {0}))
    (Q : W → Type 0) (established : (w : W) (u : Unit {0}) → (fn w).0 ≡ ok u → Q (fn w).1) where
  open rate use {Limiter, new_limiter, wait, set_limit}

  attempts-ok :
      (left retries : ℕ) (l : Limiter) (w : W) {u : Unit {0}}
      → (attempts rate base_delay fn left retries l w).0 ≡ ok u
      → Q (attempts rate base_delay fn left retries l w).1
  unfolding attempts after_wait after_attempt
  attempts-ok zero retries l w x = cc x
  attempts-ok (suc left) retries l w {u} x = elim (Result-cases (wait l w).0) [
    | inl (l', e) ↦ elim (Result-cases (fn (wait l w).1).0) [
      | inl (v, f) ↦ rw (e, f) (established (wait l w).1 v f)
      | inr (v, f) ↦
          rw (e, f)
            (attempts-ok left (retries + 1) (set_limit l' (delay base_delay (retries + 1)))
              (fn (wait l w).1).1 (rw (e, f) at x))
    ]
    | inr (v, e) ↦ cc (rw e at x)
  ]

  pub retry-ok :
      (max_retries : ℕ) (w : W) {u : Unit {0}}
      → (retry_with_exponential_backoff rate base_delay fn max_retries w).0 ≡ ok u
      → Q (retry_with_exponential_backoff rate base_delay fn max_retries w).1
  unfolding retry_with_exponential_backoff
  retry-ok max_retries w x = attempts-ok max_retries 0 (new_limiter base_delay 1) w x
