-- ===== src/Pool.antt =====
-- pool.go: how the pool sizes the fetches of logs: ParallelLogPlan, and the jobs that
-- LogsByBlockRangeParallel cuts a range into. The available providers are given by their own limits
-- (Provider.MaxLogBlockRange), in the pool's order.
pub mod Plan
pub mod Jobs
mod Tests
use go_block_walk.Prelude.{
  ℕ, zero, suc, ◌+◌, ◌-◌, ◌*◌, ◌%◌, ◌^◌, Bool, true, false, ◌&&◌, ◌||◌, Option, none, some, List,
  [], ◌∷◌, length, Text, ltb, leb, ◌==◌, if◌then◌else◌,
}
use go_block_walk.Prelude.Int.{ℤ, pos, ltb_ℤ, leb_ℤ, eqb_ℤ}
use go_block_walk.Errors.{GoError, is_range_too_large_error_with_filters}
use go_block_walk.Indexer.{u64, to_u64}

-- The fields of Pool that sizing reads.
pub record Pool : Type 0 where
  pub max_log_block_range : ℤ
  pub max_parallel_job_attempts : ℤ
  pub range_too_large_filters : List Text

unfoldable pub effective_max_log_block_range : Pool → ℤ → ℤ
effective_max_log_block_range pool own = if ltb_ℤ (pos 0) own then own else pool.max_log_block_range

unfoldable pub range_too_large : Pool → GoError → Bool
range_too_large pool e = is_range_too_large_error_with_filters (some e) pool.range_too_large_filters

unfoldable pub job_attempt_limit : Pool → ℕ → ℤ
job_attempt_limit pool available =
    if ltb_ℤ (pos 0) pool.max_parallel_job_attempts
    then pool.max_parallel_job_attempts
    else pos (available * 2)

-- if limit <= 0 { limit = 1 }
unfoldable pub limit_at_least_one : Pool → ℤ → ℤ
unfolding effective_max_log_block_range
limit_at_least_one pool own =
    let limit = effective_max_log_block_range pool own in
    if leb_ℤ limit (pos 0) then pos 1 else limit

pub smallest_limit : Pool → ℤ → List ℤ → ℤ
smallest_limit pool smallest [] = smallest
smallest_limit pool smallest (own ∷ rest) =
    let limit = limit_at_least_one pool own in
    smallest_limit pool (if eqb_ℤ smallest (pos 0) || ltb_ℤ limit smallest then limit else smallest)
      rest

unfoldable pub parallel_log_plan : Pool → List ℤ → ℕ × ℤ
parallel_log_plan pool [] = (0, pos 0)
parallel_log_plan pool (own ∷ rest) =
    (length (own ∷ rest), smallest_limit pool (pos 0) (own ∷ rest))

-- The chunk size of LogsByBlockRangeParallel, from the size so far.
unfoldable pub round_chunk_size : Pool → ℕ → List ℤ → ℕ
round_chunk_size pool chunk_size [] = chunk_size
round_chunk_size pool chunk_size (own ∷ rest) =
    let limit = to_u64 (effective_max_log_block_range pool own) in
    round_chunk_size pool
      (if ltb 0 limit && (chunk_size == 1 || ltb limit chunk_size) then limit else chunk_size) rest

pub record ParallelLogJob : Type 0 where
  pub index : ℕ
  pub from : ℕ
  pub to : ℕ
  pub attempts : ℕ

abbrev pub prepend : ParallelLogJob → Option (List ParallelLogJob) → Option (List ParallelLogJob)
prepend job none = none
prepend job (some jobs) = some (job ∷ jobs)

unfoldable pub job_end : ℕ → ℕ → ℕ → ℕ
job_end chunk_size to start =
    let end = (start + chunk_size + u64 - 1) % u64 in if ltb to end then to else end

-- The loop that cuts `start` … `to` into jobs; `none` if it has not ended within the given rounds.
unfoldable pub split_jobs : ℕ → ℕ → ℕ → ℕ → ℕ → Option (List ParallelLogJob)
unfolding job_end
split_jobs zero chunk_size to start i = if leb start to then none else some []
split_jobs (suc rounds) chunk_size to start i =
    let end = job_end chunk_size to start in
    let rest = split_jobs rounds chunk_size to ((end + 1) % u64) (i + 1) in
    if leb start to
    then prepend (record { index = i; from = start; to = end; attempts = 0 }) rest
    else some []
