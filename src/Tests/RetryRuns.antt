-- ===== src/Tests/RetryRuns.antt =====
-- RetryWithExponentialBackoff with an operation that succeeds at its third call.
use go_api_boot.Base.{ℕ, ◌+◌, List, [], ◌∷◌, ok, err, ◌≡◌, refl, arith, ltb, if◌then◌else◌}
use go_api_boot.Base.Exec.{Exec}
use go_api_boot.Retry.{RateLimiter, all_attempts_failed, retry_with_exponential_backoff}
use go_api_boot.Retry.Attempts.{Meter, Metered, Explains, retry-Metered, retry-Explains}

-- The calls so far, and the limits at the calls of Wait.
abbrev World : Type 0
World = ℕ × List ℕ

abbrev rate : RateLimiter World (Unit {0})
rate = record {
  Limiter = ℕ;
  new_limiter = λ d b. d;
  wait = λ l w. (ok l, (w.0, l ∷ w.1));
  set_limit = λ l d. d;
}

abbrev third_time : Exec World (Unit {0}) (Unit {0})
third_time w = (if ltb w.0 2 then err tt else ok tt, (w.0 + 1, w.1))

abbrev meter : Meter rate third_time
meter = record {
  interval = λ l. l;
  interval-new_limiter = λ d b. refl;
  interval-set_limit = λ l d. refl;
  calls = λ w. w.0;
  calls-wait = λ l w. refl;
  calls-fn = λ w. refl;
  waits = λ w. w.1;
  waits-wait = λ l w. refl;
  waits-fn = λ w. refl;
}

run_third :
    retry_with_exponential_backoff rate 10 third_time 5 (0, []) ≡ (ok tt, (3, 40 ∷ 20 ∷ 10 ∷ []))
unfolding retry_with_exponential_backoff
run_third = refl

run_all_failed :
    (retry_with_exponential_backoff rate 10 third_time 2 (0, [])).0 ≡ err all_attempts_failed
unfolding retry_with_exponential_backoff
run_all_failed = refl

retry-Metered_example :
    Metered rate 10 third_time meter 5 0
      (0, [])
      (retry_with_exponential_backoff rate 10 third_time 5 (0, [])).0
      (retry_with_exponential_backoff rate 10 third_time 5 (0, [])).1
retry-Metered_example = retry-Metered rate 10 third_time meter 5 (0, []) (omega arith)

retry-Explains_example :
    Explains rate 10 third_time
      (retry_with_exponential_backoff rate 10 third_time 5 (0, [])).0
      (retry_with_exponential_backoff rate 10 third_time 5 (0, [])).1
retry-Explains_example = retry-Explains rate 10 third_time 5 (0, [])
