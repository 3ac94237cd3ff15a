-- ===== src/Pool/Plan.antt =====
-- ParallelLogPlan of pool.go.
use go_block_walk.Prelude.{
  ℕ, ltb, ◌==◌, ◌&&◌, ◌≤◌, ◌≡◌, refl, ◌||◌, if◌then◌else◌, List, [], ◌∷◌, All, length, arith,
}
use go_block_walk.Prelude.Int.{ℤ, pos, ◌≤ℤ◌, ltb_ℤ, eqb_ℤ}
use go_block_walk.Indexer.{to_u64}
use go_block_walk.Pool.{
  Pool, limit_at_least_one, smallest_limit, parallel_log_plan, round_chunk_size,
  effective_max_log_block_range,
}

limit_positive : (pool : Pool) (own : ℤ) → pos 1 ≤ℤ limit_at_least_one pool own
unfolding limit_at_least_one
limit_positive pool own = ground arith

-- What the loop keeps of the smallest limit so far.
record Smallest (pool : Pool) (first : ℤ) (limits : List ℤ) (result : ℤ) : Type 0 where
  positive : pos 1 ≤ℤ result
  start : result ≤ℤ first
  each : All (λ own. result ≤ℤ limit_at_least_one pool own) limits

smallest_limit-Smallest :
    (pool : Pool) (smallest : ℤ) (limits : List ℤ)
    → pos 1 ≤ℤ smallest
    → Smallest pool smallest limits (smallest_limit pool smallest limits)
unfolding smallest_limit
smallest_limit-Smallest pool smallest [] p = record {
  positive = p;
  start = ground arith;
  each = tt;
}
smallest_limit-Smallest pool smallest (own ∷ rest) p =
    let next =
      if eqb_ℤ smallest (pos 0) || ltb_ℤ (limit_at_least_one pool own) smallest
      then limit_at_least_one pool own
      else smallest in
    let h = smallest_limit-Smallest pool next rest (ground (arith, limit_positive pool own)) in
    record {
      positive = h.positive;
      start = ground (arith, h.start);
      each = (ground (arith, h.start), h.each);
    }

-- With a provider available the plan names all of them, and a chunk size of at least 1 that is within
-- each one's limit.
pub parallel_log_plan_bounds :
    (pool : Pool) (own : ℤ) (rest : List ℤ)
    → let (providers, chunk_size) = parallel_log_plan pool (own ∷ rest) in
      (providers ≡ length (own ∷ rest))
      × (pos 1 ≤ℤ chunk_size)
      × All (λ o. chunk_size ≤ℤ limit_at_least_one pool o) (own ∷ rest)
unfolding parallel_log_plan smallest_limit
parallel_log_plan_bounds pool own rest =
    let h =
      smallest_limit-Smallest pool (limit_at_least_one pool own) rest (limit_positive pool own) in
    (refl, h.positive, (h.start, h.each))

pub round_chunk_size_positive :
    (pool : Pool) (limits : List ℤ) (size : ℕ) → 1 ≤ size → 1 ≤ round_chunk_size pool size limits
unfolding round_chunk_size
round_chunk_size_positive pool [] size p = p
round_chunk_size_positive pool (own ∷ rest) size p =
    round_chunk_size_positive pool rest
      (let limit = to_u64 (effective_max_log_block_range pool own) in
        if ltb 0 limit && (size == 1 || ltb limit size) then limit else size)
      (ground arith)
