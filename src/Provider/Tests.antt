-- ===== src/Provider/Tests.antt =====
-- A provider whose client answers its second call, with a quota of five requests. Scores count
-- tenths.
use go_block_walk.Prelude.{ℕ, suc, ◌+◌, ◌≡◌, refl, none, some, codes, ltb, if◌then◌else◌, arith}
use go_block_walk.Prelude.Int.{ℤ, pos, ◌+ℤ◌, ◌≤ℤ◌}
use go_block_walk.Errors.{plain}
use go_block_walk.Breaker.{Try, execute, new_circuit_breaker}
use go_block_walk.Quota.{new_quota_manager, consume, rollover_locked}
use go_block_walk.Retry.{RetryConfig, is_retryable, max_attempts_of, wait}
use go_block_walk.Provider.{new_provider, new_rate_limiter}
use go_block_walk.Provider.Calls.{Client, rpc, with_retry, charged_call}
use go_block_walk.Provider.Charges.{ran}
use go_block_walk.Provider.Charging.{rpc-le-limit}
use go_block_walk.Provider.Demo.{tenths, provider}
use go_block_walk.Retry

-- The world counts the calls of the client.
abbrev clock : ℕ → ℤ
clock w = pos 5

abbrev no_wait : Try ℕ
no_wait w = (none, w)

abbrev run_request : (S : Type 0) → Try (S × ℕ) → Try (S × ℕ)
run_request S request s = request s

abbrev second_time : Client ℕ ℕ
second_time t w =
    ((if ltb w 1 then 0 else 42, if ltb w 1 then some (plain (codes "timeout")) else none), suc w)

answer :
    (rpc tenths clock (λ _. pos 0) no_wait run_request (λ _. no_wait) 0 provider second_time 0).0
    ≡ (42, none)
unfolding rpc with_retry charged_call consume rollover_locked go_block_walk.Retry.with_retry
    is_retryable max_attempts_of wait execute new_provider new_rate_limiter new_circuit_breaker
    new_quota_manager ◌+ℤ◌
answer = refl

rpc-le-limit_example :
    let (_, (p', w')) =
      rpc tenths clock (λ _. pos 0) no_wait run_request (λ _. no_wait) 0 provider second_time 0 in
    (made : ℕ) × (w' ≡ 0 + made)
    × (p'.quota.used ≡ provider.quota.used +ℤ pos made)
    × (p'.quota.used ≤ℤ provider.quota.limit)
unfolding new_provider new_quota_manager ◌+ℤ◌
rpc-le-limit_example =
    rpc-le-limit tenths clock (λ _. pos 0) no_wait run_request (λ _. no_wait) (λ w. w) provider
      second_time 0 0 (λ w. refl) (λ d w. refl)
      (λ S request s w. ran w (request (s, w)).1.1 refl refl) (λ t w. refl) (λ w. omega arith)
      (omega arith) (omega arith)
