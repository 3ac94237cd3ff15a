-- ===== src/Provider.antt =====
-- provider.go: Provider, with ProviderConfig and RateLimitConfig of config.go. The client is a
-- method's argument: what a call of it with its arguments applied answers, given the timeout that
-- its context carries. The state of the packages (the limiter's, the breaker's, the client's) is a
-- world `W`.
pub mod Calls
pub mod Charges
pub mod Charging
pub mod Spending
pub mod Scores
pub mod Demo
mod Tests
use go_block_walk.Prelude.{
  ℕ, ◌+◌, Bool, true, false, not, ◌&&◌, ◌||◌, Option, none, some, List, [], ◌∷◌, ◌++◌, Text, codes,
  if◌then◌else◌,
}
use go_block_walk.Prelude.Int.{ℤ, pos, negsuc, ltb_ℤ}
use go_block_walk.Prelude.Float.{Float64}
use go_block_walk.Errors.{GoError, plain, sentinel, quota_exceeded, wrap}
use go_block_walk.Breaker.{CircuitBreakerConfig, CircuitBreaker, State, new_circuit_breaker, Try}
use go_block_walk.Quota.{
  QuotaConfig, QuotaManager, new_quota_manager, remaining, consume, usage, remaining_units,
  reset_times, restore_usage,
}
use go_block_walk.Retry.{RetryConfig, RateLimiter}
use go_block_walk.Breaker
use go_block_walk.Retry

pub record RateLimitConfig (F : Type 0) : Type 0 where
  pub enabled : Bool
  pub rps : F
  pub burst : ℤ

-- NewRateLimiter: the limiter of package rate, for `rps` and `burst`, is part of the world.
unfoldable pub new_rate_limiter : {F : Type 0} → RateLimitConfig F → RateLimiter
new_rate_limiter cfg = record { enabled = cfg.enabled }

-- A DialFunc: whether it returns a client, and its error.
abbrev pub DialFunc : Type 0
DialFunc = Text → Bool × Option GoError

pub record ProviderConfig (F : Type 0) : Type 0 where
  pub name : Text
  pub url : Text
  pub api_key : Text
  pub priority : ℤ
  pub quota : QuotaConfig
  pub rate_limit : RateLimitConfig F
  pub circuit_breaker : CircuitBreakerConfig
  pub retry : RetryConfig
  pub request_timeout : ℤ
  pub dial : Option DialFunc
  pub max_log_block_range : ℤ

-- `connected` is `client != nil`, and `closed` whether `closeOnce` has run.
pub record Provider (F : Type 0) : Type 0 where
  pub name : Text
  pub priority : ℤ
  pub connected : Bool
  pub dial_err : Option GoError
  pub limiter : RateLimiter
  pub circuit_breaker : CircuitBreaker
  pub quota : QuotaManager
  pub retry_cfg : RetryConfig
  pub request_timeout : ℤ
  pub max_log_block_range : ℤ
  pub healthy : Bool
  pub last_used : ℤ
  pub base_score : F
  pub current_score : F
  pub closed : Bool

abbrev or_default : DialFunc → Option DialFunc → DialFunc
or_default dial none = dial
or_default dial (some own) = own

abbrev dial_url : Text → Text → Text
dial_url url [] = url
dial_url url (c ∷ key) = url ++ (codes "/" ++ c ∷ key)

abbrev pub is_none : Option GoError → Bool
is_none none = true
is_none (some e) = false

module _ {F : Type 0} (float : Float64 F) where
  unfoldable pub new_provider : DialFunc → ProviderConfig F → ℤ → Provider F
  new_provider dial_eth_client cfg now =
      let (connected, dial_err) =
        or_default dial_eth_client cfg.dial (dial_url cfg.url cfg.api_key) in
      record {
        name = cfg.name;
        priority = cfg.priority;
        connected = connected;
        dial_err = dial_err;
        limiter = new_rate_limiter cfg.rate_limit;
        circuit_breaker = new_circuit_breaker cfg.circuit_breaker;
        quota = new_quota_manager cfg.quota now;
        retry_cfg = cfg.retry;
        request_timeout = cfg.request_timeout;
        max_log_block_range = cfg.max_log_block_range;
        healthy = is_none dial_err && connected;
        last_used = pos 0;
        base_score = float.from_int cfg.priority;
        current_score = float.from_int cfg.priority;
        closed = false;
      }

  -- `state` is the state of gobreaker. `Remaining` may roll the quota's window over.
  unfoldable pub is_available : State → ℤ → Provider F → Bool × Provider F
  is_available state now p =
      if not (is_none p.dial_err) || not p.connected
      then (false, p)
      else if not p.healthy
      then (false, p)
      else if not (go_block_walk.Breaker.is_available p.circuit_breaker state)
      then (false, p)
      else let (left, quota) = remaining p.quota now in (left, record p { quota = quota })

  -- The ceiling that RecordSuccess computes as `max`; defaultScoreHeadroom is 1.0.
  abbrev pub score_ceiling : Provider F → F
  score_ceiling p =
      let max = float.times p.base_score (float.from_int (pos 2)) in
      if float.above max (float.from_int (pos 0)) then max else float.from_int (pos 1)

  unfoldable pub record_success : ℤ → Provider F → Provider F
  record_success now p =
      let raised = float.plus p.current_score float.tenth in
      record p {
        healthy = true;
        current_score = if float.above raised (score_ceiling p) then score_ceiling p else raised;
        last_used = now;
      }

  unfoldable pub record_failure : Provider F → Provider F
  record_failure p =
      let lowered = float.minus p.current_score float.fifth in
      record p {
        current_score = lowered;
        healthy = if float.above (float.from_int (negsuc 0)) lowered then false else p.healthy;
      }

  unfoldable pub set_score : F → Provider F → Provider F
  set_score score p = record p { current_score = score }

  unfoldable pub get_quota_usage : Provider F → ℤ × ℤ × ℤ × ℤ
  get_quota_usage p = usage p.quota

  unfoldable pub get_quota_remaining : Provider F → ℤ × ℤ × ℤ × ℤ
  get_quota_remaining p = remaining_units p.quota

  unfoldable pub get_quota_reset : Provider F → ℤ × ℤ
  get_quota_reset p = reset_times p.quota

  unfoldable pub restore_quota_usage : ℤ → ℤ → Provider F → Provider F
  restore_quota_usage used reset_at p = record p { quota = restore_usage p.quota used reset_at }

  -- `close_client` is the client's Close.
  unfoldable pub close : {W : Type 0} → (W → W) → Provider F → W → Provider F × W
  close close_client p w =
      if p.closed
      then (p, w)
      else (record p { closed = true }, if p.connected then close_client w else w)
