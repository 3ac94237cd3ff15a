-- ===== src/Retry/Backoff.antt =====
-- The delay between attempts (retry.go).
use go_block_walk.Prelude.{ℕ, ◌≡◌, false, arith}
use go_block_walk.Prelude.Int.{ℤ, ◌≤ℤ◌}
use go_block_walk.Prelude.Float.{Float64}
use go_block_walk.Retry.{RetryConfig, calculate_backoff, min_backoff_delay}

module _ {F : Type 0} (float : Float64 F) where
  -- What the bound relies on of float64: converting back a value that is not above a duration's gives
  -- at most that duration. It holds of durations that float64 has exactly, those below 2 ^ 53 ns.
  abbrev pub Bounds : ℤ → Type 0
  Bounds d = (x : F) → float.above x (float.from_int d) ≡ false → float.to_duration x ≤ℤ d

  -- Without jitter and with a MaxDelay of at least 1 ms, the delay after any attempt is between 1 ms
  -- and MaxDelay, if float64 converts what is not above MaxDelay to at
  -- most MaxDelay and MaxDelay is not above itself.
  pub calculate_backoff_bounds :
      (n : ℕ) (cfg : RetryConfig) (random : F)
      → Bounds cfg.max_delay
      → float.above (float.from_int cfg.max_delay) (float.from_int cfg.max_delay) ≡ false
      → cfg.jitter ≡ false
      → min_backoff_delay ≤ℤ cfg.max_delay
      → let d = calculate_backoff float n cfg random in
        (min_backoff_delay ≤ℤ d) × (d ≤ℤ cfg.max_delay)
  unfolding calculate_backoff
  calculate_backoff_bounds n cfg random bounds irreflexive plain above = ground (
    arith,
    bounds (float.from_int cfg.max_delay) irreflexive,
    bounds (float.times (float.from_int cfg.base_delay) (float.pow_2 n)),
  )
