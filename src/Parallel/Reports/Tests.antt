-- ===== src/Parallel/Reports/Tests.antt =====
-- A round of one provider in a pool of two.
use go_block_walk.Prelude.{none, some, [], ◌∷◌, codes, false}
use go_block_walk.Prelude.Int.{ℤ, pos, ◌+ℤ◌}
use go_block_walk.Errors.{plain}
use go_block_walk.Provider.{new_provider}
use go_block_walk.Provider.Demo.{tenths, config, dial, provider}
use go_block_walk.Ranking.{PoolState}
use go_block_walk.Parallel.Reports.{reported_pool}
use go_block_walk.Parallel.Reports.Others.{TakesPart, Others, reported_pool-Others}

abbrev pair_pool : PoolState ℤ
pair_pool = record {
  ordered_list = provider ∷ new_provider tenths dial (config (codes "b") (pos 2)) (pos 0) ∷ [];
  penalties = λ _. pos 0;
  update_interval = pos 1;
  sizing = record {
    max_log_block_range = pos 1;
    max_parallel_job_attempts = pos 0;
    range_too_large_filters = [];
  };
  log_addresses = [];
  log_topics = [];
  closed = false;
}

-- A failure and then a success of "a", each charged one request.
reported_pool-Others_example :
    Others
      (TakesPart (codes "a" ∷ []))
      pair_pool.ordered_list
      (reported_pool tenths
        (λ _ q. record q { used = q.used +ℤ pos 1 })
        (λ n. pos n)
        (codes "a" ∷ [])
        (record { worker = 0; job = 0; failure = none }
          ∷ record { worker = 0; job = 0; failure = some (plain (codes "refused")) }
          ∷ [])
        pair_pool).ordered_list
reported_pool-Others_example =
    reported_pool-Others tenths (λ _ q. record q { used = q.used +ℤ pos 1 }) (λ n. pos n)
      (codes "a" ∷ [])
      (record { worker = 0; job = 0; failure = none }
        ∷ record { worker = 0; job = 0; failure = some (plain (codes "refused")) }
        ∷ [])
      pair_pool
