-- ===== src/Retry/Tests.antt =====
-- WithRetry on a call that fails twice with a timeout and then succeeds; the world counts the calls.
use go_block_walk.Prelude.{
  ℕ, suc, ◌+◌, ◌-◌, ◌*◌, ◌^◌, ◌≡◌, refl, true, false, none, some, codes, ltb, if◌then◌else◌,
}
use go_block_walk.Prelude.Int.{pos, pos_part}
use go_block_walk.Prelude.Float.{Float64}
use go_block_walk.Errors.{GoError, plain, sentinel, wrap, quota_exceeded}
use go_block_walk.Breaker.{Try, execute, CircuitBreaker, default_breaker_filters}
use go_block_walk.Retry.{RetryConfig, RateLimiter, wait, is_retryable, max_attempts_of, with_retry}
use go_block_walk.Retry.Attempts.{Run, attempts_of, with_retry-Run}

-- Whole numbers in place of float64.
abbrev whole : Float64 ℕ
whole = record {
  from_int = pos_part;
  pow_2 = λ n. 2 ^ n;
  times = λ x y. x * y;
  plus = λ x y. x + y;
  above = λ x y. ltb y x;
  minus = λ x y. x - y;
  half = 0;
  tenth = 0;
  fifth = 0;
  to_duration = pos;
}

abbrev three_attempts : RetryConfig
three_attempts = record {
  max_attempts = pos 3;
  base_delay = pos 2000000;
  max_delay = pos 5000000;
  jitter = false;
}

abbrev timeout : GoError
timeout = plain (codes "timeout")

abbrev third_time : Try ℕ
third_time calls = (if ltb calls 2 then some timeout else none, suc calls)

abbrev unlimited : RateLimiter
unlimited = record { enabled = false }

abbrev no_breaker : CircuitBreaker
no_breaker = record { enabled = false; threshold = pos 0; filters = default_breaker_filters }

abbrev no_wait : Try ℕ
no_wait calls = (none, calls)

with_retry-Run_example :
    Run
      (attempts_of whole three_attempts
        (λ _. 0)
        third_time
        unlimited
        no_wait
        no_breaker
        (λ f. f)
        (λ _. no_wait))
      0
      (max_attempts_of three_attempts - 1)
      0
      (with_retry whole three_attempts
        (λ _. 0)
        third_time
        unlimited
        no_wait
        no_breaker
        (λ f. f)
        (λ _. no_wait)
        0)
with_retry-Run_example =
    with_retry-Run whole three_attempts (λ _. 0) third_time unlimited no_wait no_breaker (λ f. f)
      (λ _. no_wait) 0

-- The call succeeds at its third attempt.
three_calls :
    with_retry whole three_attempts
      (λ _. 0)
      third_time
      unlimited
      no_wait
      no_breaker
      (λ f. f)
      (λ _. no_wait)
      0
    ≡ (none, 3)
unfolding with_retry is_retryable max_attempts_of wait execute
three_calls = refl

-- Quota exhaustion is not retried, unless the text around it makes it look so.
quota-not_retried :
    is_retryable (some (wrap (codes "provider a: ") (sentinel quota_exceeded))) ≡ false
unfolding is_retryable
quota-not_retried = refl

quota-retried_by_name :
    is_retryable (some (wrap (codes "provider network-a: ") (sentinel quota_exceeded))) ≡ true
unfolding is_retryable
quota-retried_by_name = refl
