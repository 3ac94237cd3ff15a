-- ===== src/Pool/Jobs.antt =====
-- The jobs of LogsByBlockRangeParallel (pool.go).
use go_block_walk.Prelude.{
  ℕ, zero, suc, ◌+◌, ◌-◌, ◌%◌, ◌≤◌, ◌<◌, ◌≡◌, refl, Bool-cases, inl, inr, some, List, [], ◌∷◌,
  arith, leb,
}
use go_block_walk.Indexer.{u64}
use go_block_walk.Pool.{ParallelLogJob, job_end, split_jobs}

-- The jobs are numbered from `i`, untried, and each begins where the one before it ends: they cover
-- `start` … `to` in order, each block once, with at most `chunk_size` blocks a job.
abbrev pub Tiles : ℕ → ℕ → ℕ → ℕ → List ParallelLogJob → Type 0
Tiles chunk_size to start i [] = start ≡ to + 1
Tiles chunk_size to start i (job ∷ jobs) =
    (job ≡ record { index = i; from = start; to = job.to; attempts = 0 })
    × (start ≤ job.to)
    × (job.to ≤ to)
    × (job.to + 1 ≤ start + chunk_size)
    × Tiles chunk_size to (job.to + 1) (i + 1) jobs

job_end_bounds :
    (chunk_size to start : ℕ)
    → 1 ≤ chunk_size
    → start ≤ to
    → to + chunk_size < u64
    → let end = job_end chunk_size to start in
      (start ≤ end) × (end ≤ to) × (end + 1 ≤ start + chunk_size)
unfolding job_end
job_end_bounds chunk_size to start p l u =
    let e : (start + chunk_size + u64 - 1) % u64 ≡ start + chunk_size - 1 = omega arith in
    rw e (ground arith)

-- Cutting a range of blocks into jobs of a positive size ends within one round for each block, and
-- covers the range in order, each block once, in numbered jobs of at most that size (the sizes do not
-- wrap).
pub split_jobs-Tiles :
    (rounds chunk_size to start i : ℕ)
    → 1 ≤ chunk_size
    → start ≤ to + 1
    → to + chunk_size < u64
    → to + 1 ≤ rounds + start
    → (jobs : List ParallelLogJob) × (split_jobs rounds chunk_size to start i ≡ some jobs)
      × Tiles chunk_size to start i jobs
unfolding split_jobs
split_jobs-Tiles zero chunk_size to start i p l u enough = ([], ground arith, omega arith)
split_jobs-Tiles (suc rounds) chunk_size to start i p l u enough =
    elim (Bool-cases (leb start to)) [
      | inl more ↦
          let end = job_end chunk_size to start in
          let b = job_end_bounds chunk_size to start p (ground (arith, more)) u in
          let e : (end + 1) % u64 ≡ end + 1 = ground (arith, b) in
          let (jobs, r, t) =
            split_jobs-Tiles rounds chunk_size to (end + 1) (i + 1) p (ground (arith, b)) u
              (ground (arith, b)) in
          (
            record { index = i; from = start; to = end; attempts = 0 } ∷ jobs,
            rw (more, e, r),
            (refl, b.0, b.1, b.2, t),
          )
      | inr over ↦ ([], rw over, ground (arith, over))
    ]
