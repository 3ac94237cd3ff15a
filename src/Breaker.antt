-- ===== src/Breaker.antt =====
-- breaker.go: CircuitBreaker, over a breaker of package gobreaker. The package's `Execute` and
-- `State` are arguments; a filter set is the list of its texts, since only membership is asked of
-- it.
pub mod Filters
mod Tests
use go_block_walk.Prelude.{
  ℕ, ◌*◌, Bool, true, false, not, ◌&&◌, Option, none, some, List, [], ◌∷◌, ◌++◌, map, Text, codes,
  leb, ◌==◌, if◌then◌else◌,
}
use go_block_walk.Prelude.Int.{ℤ, pos, leb_ℤ}
use go_block_walk.Prelude.Strings.{contains_any, to_lower}
use go_block_walk.Errors.{GoError, error_text}

pub record CircuitBreakerConfig : Type 0 where
  pub enabled : Bool
  pub threshold : ℤ
  pub timeout : ℤ
  pub half_open_max_calls : ℤ
  pub filter_errors : List Text

abbrev pub default_breaker_filters : List Text
default_breaker_filters =
    codes "429"
    ∷ codes "401"
    ∷ codes "unauthorized"
    ∷ codes "rate limit"
    ∷ codes "forbidden"
    ∷ codes "context deadline"
    ∷ codes "connection refused"
    ∷ codes "timeout"
    ∷ codes "500"
    ∷ codes "502"
    ∷ codes "503"
    ∷ codes "504"
    ∷ codes "internal error"
    ∷ codes "internal server error"
    ∷ codes "service unavailable"
    ∷ codes "bad gateway"
    ∷ codes "gateway timeout"
    ∷ []

-- gobreaker's State: StateClosed, StateHalfOpen and StateOpen.
pub data State : Type 0 where
  closed half_open opened : State

-- What the program reads of gobreaker's Counts.
pub record Counts : Type 0 where
  pub requests : ℕ
  pub total_failures : ℕ

pub record CircuitBreaker : Type 0 where
  pub enabled : Bool
  pub threshold : ℤ
  pub filters : List Text

unfoldable pub new_circuit_breaker : CircuitBreakerConfig → CircuitBreaker
new_circuit_breaker cfg = record {
  enabled = cfg.enabled;
  threshold = cfg.threshold;
  filters = default_breaker_filters ++ map to_lower cfg.filter_errors;
}

-- ReadyToTrip. float64(failures) / float64(requests) >= 0.5 of two uint32 is exact: it says
-- requests <= 2 * failures.
unfoldable pub ready_to_trip : CircuitBreaker → Counts → Bool
ready_to_trip cb counts =
    if counts.requests == 0
    then false
    else leb_ℤ cb.threshold (pos counts.total_failures)
      && leb counts.requests (2 * counts.total_failures)

unfoldable pub is_filtered_failure : GoError → List Text → Bool
unfolding error_text contains_any to_lower
is_filtered_failure e filters = contains_any (to_lower (error_text e)) filters

unfoldable pub is_successful : CircuitBreaker → Option GoError → Bool
unfolding is_filtered_failure
is_successful cb none = true
is_successful cb (some e) = not (is_filtered_failure e cb.filters)

-- A call that may fail, and the world that it changes.
abbrev pub Try : Type 0 → Type 0
Try W = W → Option GoError × W

unfoldable pub execute : {W : Type 0} → CircuitBreaker → (Try W → Try W) → Try W → Try W
execute cb library_execute fn w = if cb.enabled then library_execute fn w else fn w

unfoldable pub is_available : CircuitBreaker → State → Bool
is_available cb opened = not cb.enabled
is_available cb closed = true
is_available cb half_open = true
