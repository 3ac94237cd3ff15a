-- ===== src/Retry/Attempts.antt =====
-- How WithRetry of retry.go ends.
use go_block_walk.Prelude.{
  ℕ, zero, suc, ◌+◌, ◌-◌, ◌≡◌, refl, true, false, none, some, Option, codes, arith, ◌⊎◌, inl, inr,
  subst, sym, Bool-cases,
}
use go_block_walk.Errors.{GoError, wrap, errors_is, Sentinel, retries_exhausted}
use go_block_walk.Breaker.{Try, CircuitBreaker, execute}
use go_block_walk.Prelude.Float.{Float64}
use go_block_walk.Prelude.Int.{ℤ}
use go_block_walk.Retry.{
  RetryConfig, RateLimiter, wait, calculate_backoff, max_attempts_of, with_retry, Steps, Attempt,
  returns, may_retry, attempt, after_limit, judge, retry_from, is_retryable, exhausted_error,
}

module _ {W : Type 0} (steps : Steps W) where
  -- `count` attempts, the first after `n` others: each was let through by the limiter, failed with a
  -- retryable error, and was followed by a sleep that ran to its end.
  pub data Failing : ℕ → ℕ → W → W → Type 0 where
    nil : {n : ℕ} {w : W} → Failing n 0 w w
    cons :
        {n count : ℕ} {w w₁ w₂ w₃ last : W} (e : GoError)
        → steps.limit w ≡ (none, w₁)
        → steps.call w₁ ≡ (some e, w₂)
        → is_retryable (some e) ≡ true
        → steps.sleep (suc n) w₂ ≡ (none, w₃)
        → Failing (suc n) count w₃ last
        → Failing n (suc count) w last

  -- The last attempt, after `n` others, with `left` more allowed, and what WithRetry returns.
  pub data Last : ℕ → ℕ → W → Option GoError × W → Type 0 where
    limited :
        {n left : ℕ} {w w₁ : W} (e : GoError)
        → steps.limit w ≡ (some e, w₁)
        → Last n left w (some (wrap (codes "rate limiter wait failed: ") e), w₁)
    succeeded :
        {n left : ℕ} {w w₁ w₂ : W}
        → steps.limit w ≡ (none, w₁)
        → steps.call w₁ ≡ (none, w₂)
        → Last n left w (none, w₂)
    refused :
        {n left : ℕ} {w w₁ w₂ : W} (e : GoError)
        → steps.limit w ≡ (none, w₁)
        → steps.call w₁ ≡ (some e, w₂)
        → is_retryable (some e) ≡ false
        → Last n left w (some e, w₂)
    exhausted :
        {n : ℕ} {w w₁ w₂ : W} (e : GoError)
        → steps.limit w ≡ (none, w₁)
        → steps.call w₁ ≡ (some e, w₂)
        → is_retryable (some e) ≡ true
        → Last n 0 w (some (exhausted_error (suc n) e), w₂)
    cancelled :
        {n left : ℕ} {w w₁ w₂ w₃ : W} (e x : GoError)
        → steps.limit w ≡ (none, w₁)
        → steps.call w₁ ≡ (some e, w₂)
        → is_retryable (some e) ≡ true
        → steps.sleep (suc n) w₂ ≡ (some x, w₃)
        → Last n (suc left) w (some x, w₃)

  -- A whole run, whose answer is `o`: some failing attempts, then the last one.
  pub data Run (n left : ℕ) (w : W) (o : Option GoError × W) : Type 0 where
    run :
        (count rest : ℕ) (w' : W)
        → count + rest ≡ left
        → Failing n count w w'
        → Last (n + count) rest w' o
        → Run n left w o

  -- What an attempt shows: it was the last one, or its error may be retried.
  record Ended (w : W) (o : Option GoError) (w' : W) : Type 0 where
    comes_to : attempt steps w ≡ (returns o, w')
    last : (n left : ℕ) → Last n left w (o, w')

  record Retried (w : W) (e : GoError) (w₁ w₂ : W) : Type 0 where
    comes_to : attempt steps w ≡ (may_retry e, w₂)
    limit : steps.limit w ≡ (none, w₁)
    call : steps.call w₁ ≡ (some e, w₂)
    retryable : is_retryable (some e) ≡ true

  abbrev Tried : W → Type 0
  Tried w =
      ((o : Option GoError) × (w' : W) × Ended w o w')
      ⊎ ((e : GoError) × (w₁ : W) × (w₂ : W) × Retried w e w₁ w₂)

  Tried-call :
      (w w₁ : W) (p : Option GoError × W) → steps.limit w ≡ (none, w₁) → steps.call w₁ ≡ p → Tried w
  unfolding attempt after_limit judge
  Tried-call w w₁ (none, w₂) l c =
      inl (none, w₂, record { comes_to = ground arith; last = λ n left. succeeded l c })
  Tried-call w w₁ (some e, w₂) l c = elim (Bool-cases (is_retryable (some e))) [
    | inl r ↦
        inr (e, w₁, w₂, record { comes_to = ground arith; limit = l; call = c; retryable = r })
    | inr r ↦ inl (some e, w₂, record { comes_to = ground arith; last = λ n left. refused e l c r })
  ]

  Tried-limit : (w : W) (p : Option GoError × W) → steps.limit w ≡ p → Tried w
  unfolding attempt after_limit judge
  Tried-limit w (none, w₁) l = Tried-call w w₁ (steps.call w₁) l refl
  Tried-limit w (some e, w₁) l =
      inl (_, w₁, record { comes_to = ground arith; last = λ n left. limited e l })

  tried : (w : W) → Tried w
  tried w = Tried-limit w (steps.limit w) refl

  Run-cons :
      (n left : ℕ) (w w₁ w₂ w₃ : W) (e : GoError) (o : Option GoError × W)
      → Retried w e w₁ w₂
      → steps.sleep (suc n) w₂ ≡ (none, w₃)
      → Run (suc n) left w₃ o
      → Run n (suc left) w o
  Run-cons n left w w₁ w₂ w₃ e o r slept (run count rest w' sum failing last) =
      run (suc count) rest w' (omega arith) (cons e r.limit r.call r.retryable slept failing)
        (subst (λ m. Last m rest w' o) (omega arith) last)

  Run-Last : (n left : ℕ) (w : W) (o : Option GoError × W) → Last n left w o → Run n left w o
  Run-Last n left w o last =
      run 0 left w (omega arith) nil (subst (λ m. Last m left w o) (omega arith) last)

  after_sleep-Run :
      (n left : ℕ) (w w₁ w₂ : W) (e : GoError)
      → Retried w e w₁ w₂
      → ((w₃ : W) → Run (suc n) left w₃ (retry_from steps left (suc n) w₃))
      → (p : Option GoError × W) → steps.sleep (suc n) w₂ ≡ p
      → Run n
          (suc left)
          w
          (elim p.0 [ some x ↦ (some x, p.1) | none ↦ retry_from steps left (suc n) p.1 ])
  after_sleep-Run n left w w₁ w₂ e t ih (none, w₃) s = Run-cons n left w w₁ w₂ w₃ e _ t s (ih w₃)
  after_sleep-Run n left w w₁ w₂ e t ih (some x, w₃) s =
      Run-Last n (suc left) w _ (cancelled e x t.limit t.call t.retryable s)

  -- The two clauses of the loop, over what the attempt comes to.
  abbrev conclude : ℕ → Attempt × W → Option GoError × W
  conclude n p = elim p.0 [
    | returns o ↦ (o, p.1)
    | may_retry e ↦ (some (exhausted_error (suc n) e), p.1)
  ]

  abbrev go_on : ℕ → ℕ → Attempt × W → Option GoError × W
  go_on left n p = elim p.0 [
    | returns o ↦ (o, p.1)
    | may_retry e ↦
        let (o, w'') = steps.sleep (suc n) p.1 in
        elim o [ some x ↦ (some x, w'') | none ↦ retry_from steps left (suc n) w'' ]
  ]

  retry_from-Run : (left n : ℕ) (w : W) → Run n left w (retry_from steps left n w)
  unfolding retry_from
  retry_from-Run zero n w = elim (tried w) [
    | inl (o, w', t) ↦
        subst (λ p. Run n 0 w (conclude n p)) (sym t.comes_to) (Run-Last n 0 w _ (t.last n 0))
    | inr (e, w₁, w₂, t) ↦
        subst (λ p. Run n 0 w (conclude n p)) (sym t.comes_to)
          (Run-Last n 0 w _ (exhausted e t.limit t.call t.retryable))
  ]
  retry_from-Run (suc left) n w = elim (tried w) [
    | inl (o, w', t) ↦
        subst (λ p. Run n (suc left) w (go_on left n p)) (sym t.comes_to)
          (Run-Last n (suc left) w _ (t.last n (suc left)))
    | inr (e, w₁, w₂, t) ↦
        subst (λ p. Run n (suc left) w (go_on left n p)) (sym t.comes_to)
          (after_sleep-Run n left w w₁ w₂ e t (retry_from-Run left (suc n)) (steps.sleep (suc n) w₂)
            refl)
  ]

module _ {F W : Type 0} (float : Float64 F) (cfg : RetryConfig) (random : ℕ → F) (fn : Try W)
    (rl : RateLimiter) (library_wait : Try W) (cb : CircuitBreaker)
    (library_execute : Try W → Try W) (sleep : ℤ → Try W) where
  -- The attempts of a WithRetry with these arguments.
  abbrev pub attempts_of : Steps W
  attempts_of = record {
    limit = wait rl library_wait;
    call = execute cb library_execute fn;
    sleep = λ n. sleep (calculate_backoff float (n - 1) cfg (random n));
  }

  -- WithRetry makes between 1 and max(1, MaxAttempts) attempts. All but the last were let through
  -- by the limiter and failed with a retryable error, and the sleep after each, of that attempt's
  -- backoff, ran to its end; the answer is what the last one came to: the limiter's error wrapped,
  -- no error, an error that is not retryable as it is, the context's error from the sleep, or, only
  -- after the last attempt that is allowed, the exhaustion error over the last error.
  pub with_retry-Run :
      (w : W)
      → Run attempts_of 0
          (max_attempts_of cfg - 1)
          w
          (with_retry float cfg random fn rl library_wait cb library_execute sleep w)
  unfolding with_retry
  with_retry-Run w = retry_from-Run attempts_of (max_attempts_of cfg - 1) 0 w

-- The error after the last attempt is ErrRetriesExhausted to errors.Is, and every sentinel that the
-- last error matches.
pub exhausted_error-errors_is :
    (n : ℕ) (e : GoError) (s : Sentinel)
    → (errors_is (exhausted_error n e) retries_exhausted ≡ true)
      × (errors_is e s ≡ true → errors_is (exhausted_error n e) s ≡ true)
unfolding errors_is exhausted_error
exhausted_error-errors_is n e s = ground arith
