-- ===== src/Breaker/Tests.antt =====
-- The circuit breaker on a concrete configuration.
use go_block_walk.Prelude.{◌≡◌, refl, true, false, [], ◌∷◌, codes}
use go_block_walk.Prelude.Int.{pos}
use go_block_walk.Errors.{GoError, plain}
use go_block_walk.Breaker.{CircuitBreakerConfig, new_circuit_breaker, ready_to_trip}

abbrev strict : CircuitBreakerConfig
strict = record {
  enabled = true;
  threshold = pos 3;
  timeout = pos 10;
  half_open_max_calls = pos 1;
  filter_errors = codes "Capped" ∷ [];
}

abbrev capped : GoError
capped = plain (codes "plan CAPPED")

trips_at_threshold :
    ready_to_trip (new_circuit_breaker strict) (record { requests = 6; total_failures = 3 }) ≡ true
unfolding ready_to_trip new_circuit_breaker
trips_at_threshold = refl

holds_below_half :
    ready_to_trip (new_circuit_breaker strict) (record { requests = 7; total_failures = 3 }) ≡ false
unfolding ready_to_trip new_circuit_breaker
holds_below_half = refl
