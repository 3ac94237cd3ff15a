-- ===== src/Retry/Limiter.antt =====
-- ratelimit.go: the methods of RateLimiter but Wait, over the limiter of package rate, whose state
-- is the world. `R` is rate.Reservation, and `F` float64, which a rate.Limit is.
use go_block_walk.Prelude.{Bool, true, none, if◌then◌else◌}
use go_block_walk.Prelude.Int.{ℤ, pos}
use go_block_walk.Breaker.{Try}
use go_block_walk.Retry.{RateLimiter}

-- The methods of rate.Limiter, with the zero Reservation and rate.Inf.
pub record Library (W R F : Type 0) : Type 0 where
  pub allow : W → Bool × W
  pub wait_n : ℤ → Try W
  pub reserve : W → R × W
  pub reserve_n : ℤ → ℤ → W → R × W
  pub set_limit : F → W → W
  pub set_burst : ℤ → W → W
  pub tokens : W → F
  pub burst : W → ℤ
  pub limit : W → F
  pub no_reservation : R
  pub inf : F
  pub zero : F

module _ {W R F : Type 0} (library : Library W R F) where
  unfoldable pub allow : RateLimiter → W → Bool × W
  allow rl w = if rl.enabled then library.allow w else (true, w)

  unfoldable pub wait_n : RateLimiter → ℤ → Try W
  wait_n rl n w = if rl.enabled then library.wait_n n w else (none, w)

  unfoldable pub reserve : RateLimiter → W → R × W
  reserve rl w = if rl.enabled then library.reserve w else (library.no_reservation, w)

  unfoldable pub reserve_n : RateLimiter → ℤ → ℤ → W → R × W
  reserve_n rl now n w =
      if rl.enabled then library.reserve_n now n w else (library.no_reservation, w)

  unfoldable pub set_limit : RateLimiter → F → W → W
  set_limit rl r w = if rl.enabled then library.set_limit r w else w

  unfoldable pub set_burst : RateLimiter → ℤ → W → W
  set_burst rl burst w = if rl.enabled then library.set_burst burst w else w

  unfoldable pub tokens : RateLimiter → W → F
  tokens rl w = if rl.enabled then library.tokens w else library.zero

  unfoldable pub is_enabled : RateLimiter → Bool
  is_enabled rl = rl.enabled

  unfoldable pub burst : RateLimiter → W → ℤ
  burst rl w = if rl.enabled then library.burst w else pos 0

  unfoldable pub limit : RateLimiter → W → F
  limit rl w = if rl.enabled then library.limit w else library.inf
