-- ===== src/Breaker/Filters.antt =====
-- Which errors count against a provider (breaker.go).
use go_block_walk.Prelude.{◌≡◌, true, false, List, [], ◌∷◌, ◌++◌, map, Text, some, arith, ◌↔◌, ◌⊎◌}
use go_block_walk.Prelude.Strings.{contains_any, to_lower}
use go_block_walk.Errors.{GoError, error_text}
use go_block_walk.Breaker.{
  CircuitBreakerConfig, new_circuit_breaker, default_breaker_filters, is_filtered_failure,
  is_successful,
}

contains_any-append :
    (s : Text) (ks ls : List Text)
    → (contains_any s (ks ++ ls) ≡ true) ↔ (contains_any s ks ≡ true) ⊎ (contains_any s ls ≡ true)
unfolding contains_any
contains_any-append s [] ls = ground arith
contains_any-append s (k ∷ ks) ls = ground (arith, contains_any-append s ks ls)

-- A breaker counts an error as a failure exactly when the error's lowered text holds one of the
-- built-in keywords or, in lower case, one of the configured ones.
pub is_successful_iff :
    (cfg : CircuitBreakerConfig) (e : GoError)
    → (is_successful (new_circuit_breaker cfg) (some e) ≡ false)
      ↔ (contains_any (to_lower (error_text e)) default_breaker_filters ≡ true)
        ⊎ (contains_any (to_lower (error_text e)) (map to_lower cfg.filter_errors) ≡ true)
unfolding is_successful new_circuit_breaker is_filtered_failure
is_successful_iff cfg e = ground (
  arith,
  contains_any-append (to_lower (error_text e)) default_breaker_filters
      (map to_lower cfg.filter_errors),
)
