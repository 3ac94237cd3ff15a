-- ===== src/Pool/Tests.antt =====
-- Plans and jobs on concrete limits.
use go_block_walk.Prelude.{◌≡◌, refl, some, List, [], ◌∷◌, arith}
use go_block_walk.Prelude.Int.{pos}
use go_block_walk.Pool.{
  Pool, ParallelLogJob, effective_max_log_block_range, limit_at_least_one, parallel_log_plan,
  smallest_limit, round_chunk_size, split_jobs,
}
use go_block_walk.Pool.Jobs.{Tiles, split_jobs-Tiles}

abbrev default_pool : Pool
default_pool = record {
  max_log_block_range = pos 3;
  max_parallel_job_attempts = pos 0;
  range_too_large_filters = [];
}

split_jobs-Tiles_example :
    (jobs : List ParallelLogJob) × (split_jobs 5 2 14 10 0 ≡ some jobs) × Tiles 2 14 10 0 jobs
split_jobs-Tiles_example =
    split_jobs-Tiles 5 2 14 10 0 (omega arith) (omega arith) (omega arith) (omega arith)

-- Providers with limits 1 and 5: the plan takes the smaller one, the round does not.
plan-smallest : parallel_log_plan default_pool (pos 1 ∷ pos 5 ∷ []) ≡ (2, pos 1)
unfolding parallel_log_plan smallest_limit limit_at_least_one effective_max_log_block_range
plan-smallest = refl

round-not_smallest : round_chunk_size default_pool 1 (pos 1 ∷ pos 5 ∷ []) ≡ 5
unfolding round_chunk_size effective_max_log_block_range
round-not_smallest = refl
