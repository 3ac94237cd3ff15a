-- ===== src/Retry.antt =====
-- retry.go: WithRetry with its backoff and its classifier, and RateLimiter.Wait of ratelimit.go,
-- which it begins each attempt with. The wait of package rate, the sleep between attempts and
-- float64 are arguments.
pub mod Backoff
pub mod Attempts
pub mod Classifier
pub mod Runs
pub mod Limiter
mod Tests
use go_block_walk.Prelude.{
  ℕ, zero, suc, ◌+◌, ◌-◌, Bool, true, false, Option, none, some, List, [], ◌∷◌, ◌++◌, Text, codes,
  leb, ◌&&◌, not, if◌then◌else◌,
}
use go_block_walk.Prelude.Int.{ℤ, pos, ltb_ℤ, pos_part}
use go_block_walk.Prelude.Float.{Float64}
use go_block_walk.Prelude.Strings.{contains_any, to_lower, decimal}
use go_block_walk.Errors.{GoError, sentinel, retries_exhausted, wrap, wrap_both, error_text}
use go_block_walk.Breaker.{CircuitBreaker, Try, execute}

pub record RetryConfig : Type 0 where
  pub max_attempts : ℤ
  pub base_delay : ℤ
  pub max_delay : ℤ
  pub jitter : Bool

abbrev pub retryable_errors : List Text
retryable_errors =
    codes "429"
    ∷ codes "rate limit"
    ∷ codes "timeout"
    ∷ codes "context deadline"
    ∷ codes "connection refused"
    ∷ codes "network"
    ∷ codes "temporary"
    ∷ []

abbrev pub non_retryable_errors : List Text
non_retryable_errors = codes "401" ∷ codes "unauthorized" ∷ codes "forbidden" ∷ []

unfoldable pub is_retryable : Option GoError → Bool
unfolding error_text contains_any to_lower
is_retryable none = false
is_retryable (some e) =
    let s = to_lower (error_text e) in
    if contains_any s non_retryable_errors then false else contains_any s retryable_errors

-- time.Millisecond, in nanoseconds
abbrev pub min_backoff_delay : ℤ
min_backoff_delay = pos 1000000

module _ {F : Type 0} (float : Float64 F) where
  abbrev capped : RetryConfig → F → F
  capped cfg delay =
      if ltb_ℤ (pos 0) cfg.max_delay && float.above delay (float.from_int cfg.max_delay)
      then float.from_int cfg.max_delay
      else delay

  abbrev jittered : RetryConfig → F → F → F
  jittered cfg random delay =
      if cfg.jitter
      then float.plus delay (float.times (float.times random float.half) delay)
      else delay

  abbrev at_least_minimum : ℤ → ℤ
  at_least_minimum d = if ltb_ℤ min_backoff_delay d then d else min_backoff_delay

  -- The delay after attempt `suc n`; `random` is what rand.Float64() returns.
  unfoldable pub calculate_backoff : ℕ → RetryConfig → F → ℤ
  calculate_backoff n cfg random =
      let delay = float.times (float.from_int cfg.base_delay) (float.pow_2 n) in
      at_least_minimum (float.to_duration (jittered cfg random (capped cfg delay)))

pub record RateLimiter : Type 0 where
  pub enabled : Bool

unfoldable pub wait : {W : Type 0} → RateLimiter → Try W → Try W
wait rl library_wait w = if rl.enabled then library_wait w else (none, w)

unfoldable pub max_attempts_of : RetryConfig → ℕ
max_attempts_of cfg = if ltb_ℤ cfg.max_attempts (pos 1) then 1 else pos_part cfg.max_attempts

-- fmt.Errorf("%w: %d attempts exceeded, last error: %w", ErrRetriesExhausted, …)
unfoldable pub exhausted_error : ℕ → GoError → GoError
exhausted_error attempts last =
    wrap_both (sentinel retries_exhausted)
      (codes ": " ++ decimal attempts ++ codes " attempts exceeded, last error: ") last

-- The steps of an attempt, on a world `W`: the limiter's wait, the call through the breaker, and the
-- sleep after the attempt of that number, which returns ctx.Err() if the context ends first.
pub record Steps (W : Type 0) : Type 0 where
  pub limit : Try W
  pub call : Try W
  pub sleep : ℕ → Try W

-- What an attempt comes to before the loop looks at its number: WithRetry returns, or the error may
-- be retried.
pub data Attempt : Type 0 where
  returns : Option GoError → Attempt
  may_retry : GoError → Attempt

module _ {W : Type 0} (steps : Steps W) where
  judge : Option GoError → Attempt
  judge none = returns none
  judge (some e) = if is_retryable (some e) then may_retry e else returns (some e)

  after_limit : Option GoError → W → Attempt × W
  unfolding judge
  after_limit (some e) w = (returns (some (wrap (codes "rate limiter wait failed: ") e)), w)
  after_limit none w = let (r, w') = steps.call w in (judge r, w')

  attempt : W → Attempt × W
  unfolding after_limit
  attempt w = let (r, w') = steps.limit w in after_limit r w'

  -- The loop at attempt `suc n`, with `left` attempts to go after it.
  pub retry_from : ℕ → ℕ → Try W
  unfolding attempt
  retry_from zero n w =
      let (a, w') = attempt w in
      elim a [ returns o ↦ (o, w') | may_retry e ↦ (some (exhausted_error (suc n) e), w') ]
  retry_from (suc left) n w =
      let (a, w') = attempt w in
      elim a [
        | returns o ↦ (o, w')
        | may_retry e ↦
            let (o, w'') = steps.sleep (suc n) w' in
            elim o [ some x ↦ (some x, w'') | none ↦ retry_from left (suc n) w'' ]
      ]

-- WithRetry: `library_wait` is the Wait of package rate, `library_execute` the Execute of gobreaker,
-- and `sleep` the wait for the given delay.
unfoldable pub with_retry :
    {F W : Type 0}
    → Float64 F
    → RetryConfig
    → (ℕ → F)
    → Try W
    → RateLimiter
    → Try W
    → CircuitBreaker
    → (Try W → Try W)
    → (ℤ → Try W)
    → Try W
unfolding retry_from
with_retry float cfg random fn rl library_wait cb library_execute sleep =
    retry_from
      (record {
        limit = wait rl library_wait;
        call = execute cb library_execute fn;
        sleep = λ n. sleep (calculate_backoff float (n - 1) cfg (random n));
      })
      (max_attempts_of cfg - 1) 0
