-- ===== src/Parallel/Call.antt =====
-- LogsByBlockRangeParallel of pool.go as a whole: what a call may return.
use go_block_walk.Prelude.{
  ℕ, ◌+◌, ◌-◌, ◌%◌, ◌≤◌, ◌<◌, ◌≡◌, refl, ◌⊎◌, some, List, [], ◌∷◌, arith, length, subst, sym, ap,
  append-nil,
}
use go_block_walk.Prelude.Int.{ℤ, pos_part}
use go_block_walk.Errors.{GoError, sentinel, no_available_provider, Result, ok, err}
use go_block_walk.Dispatcher.{Log}
use go_block_walk.Indexer.{u64}
use go_block_walk.Pool.{Pool, ParallelLogJob, job_attempt_limit, round_chunk_size, split_jobs}
use go_block_walk.Pool.Plan.{round_chunk_size_positive}
use go_block_walk.Pool.Jobs.{Tiles, split_jobs-Tiles}
use go_block_walk.Parallel.{Shared, Round, Reach, outcome}
use go_block_walk.Parallel.Inv.{Indexed, start}
use go_block_walk.Parallel.Progress.{Finished}
use go_block_walk.Parallel.Answers.{Served, nil, cons, Returned, complete, round_outcome}

-- A fetch of the whole range from one provider.
pub data Fetched (Answer : ℕ → ℕ → List Log → Type 0) (from to : ℕ)
    : Result (List Log) → Type 0 where
  fetched : {logs : List Log} → Answer from to logs → Fetched Answer from to (ok logs)
  not_fetched : (e : GoError) → Fetched Answer from to (err e)

-- toBlock - fromBlock + 1
abbrev total_blocks : ℕ → ℕ → ℕ
total_blocks from to = (to + u64 - from + 1) % u64

abbrev pub attempt_limit : Pool → List ℤ → ℕ
attempt_limit pool limits = pos_part (job_attempt_limit pool (length limits))

module _ (pool : Pool) (Answer : ℕ → ℕ → List Log → Type 0) where
  -- A call of LogsByBlockRangeParallel with available providers of these limits may return `result`.
  pub data Calls (limits : List ℤ) (from to : ℕ) (result : Result (List Log)) : Type 0 where
    empty_range : to < from → result ≡ ok [] → Calls limits from to result
    unavailable :
        from ≤ to
        → limits ≡ []
        → result ≡ err (sentinel no_available_provider)
        → Calls limits from to result
    single :
        from ≤ to
        → 1 ≤ length limits
        → (length limits < 2) ⊎ (total_blocks from to ≤ round_chunk_size pool 1 limits)
        → Fetched Answer from to result
        → Calls limits from to result
    parallel :
        (jobs : List ParallelLogJob) (last : Round)
        → from ≤ to
        → 2 ≤ length limits
        → round_chunk_size pool 1 limits < total_blocks from to
        → split_jobs (to + 1) (round_chunk_size pool 1 limits) to from 0 ≡ some jobs
        → Reach pool
            (attempt_limit pool limits)
            (length jobs)
            Answer
            (start pool (attempt_limit pool limits) Answer jobs (length limits))
            last
        → Finished last
        → result ≡ outcome (length jobs) from to last.shared
        → Calls limits from to result

  -- The jobs cover `start` … `to`, in order and each block once.
  abbrev pub Covers : ℕ → ℕ → List ParallelLogJob → Type 0
  Covers start to [] = start ≡ to + 1
  Covers start to (job ∷ jobs) =
      (job.from ≡ start) × (start ≤ job.to) × (job.to ≤ to) × Covers (job.to + 1) to jobs

  Covers-Tiles :
      (size start to i : ℕ) (jobs : List ParallelLogJob)
      → Tiles size to start i jobs
      → Covers start to jobs
  Covers-Tiles size start to i [] t = t
  Covers-Tiles size start to i (job ∷ jobs) t =
      (ap (λ j. j.from) t.0, t.1, t.2, Covers-Tiles size (job.to + 1) to (i + 1) jobs t.4)

  Indexed-Tiles :
      (size start to i : ℕ) (jobs : List ParallelLogJob)
      → Tiles size to start i jobs
      → Indexed i jobs
  Indexed-Tiles size start to i [] t = tt
  Indexed-Tiles size start to i (job ∷ jobs) t = (
    ap (λ j. j.index) t.0,
    ap (λ j. j.attempts) t.0,
    subst (λ k. Indexed k jobs) (omega arith) (Indexed-Tiles size (job.to + 1) to (i + 1) jobs t.4),
  )

  attempt_limit_positive : (limits : List ℤ) → 2 ≤ length limits → 1 ≤ attempt_limit pool limits
  unfolding job_attempt_limit
  attempt_limit_positive limits l = ground arith

  split_Tiles :
      (size from to : ℕ) (jobs : List ParallelLogJob)
      → 1 ≤ size
      → from ≤ to
      → to + size < u64
      → split_jobs (to + 1) size to from 0 ≡ some jobs
      → Tiles size to from 0 jobs
  split_Tiles size from to jobs p l u e =
      let (jobs', e', t) =
        split_jobs-Tiles (to + 1) size to from 0 p (omega arith) u (omega arith) in
      let same : jobs' ≡ jobs = cc in subst (Tiles size to from 0) same t

  Covers-nonempty :
      (from to : ℕ) (jobs : List ParallelLogJob) → from ≤ to → Covers from to jobs → 1 ≤ length jobs
  Covers-nonempty from to [] l c = absurd (omega arith)
  Covers-nonempty from to (job ∷ jobs) l c = omega arith

  Returned-ok :
      {limit : ℕ} {jobs : List ParallelLogJob} {s : Shared} {logs : List Log}
      → Returned pool limit Answer jobs s (ok logs)
      → Served Answer jobs logs
  Returned-ok (complete served) = served

  Fetched-ok :
      {from to : ℕ} {logs : List Log} → Fetched Answer from to (ok logs) → Answer from to logs
  Fetched-ok (fetched a) = a

  -- What logs of a range are made of: answers for consecutive pieces of it.
  abbrev pub Pieces : ℕ → ℕ → List Log → Type 0
  Pieces from to logs = (jobs : List ParallelLogJob) × Covers from to jobs × Served Answer jobs logs

  -- A call for a range of blocks that returns logs returns the answers of providers for consecutive
  -- pieces of the range that cover it, in order, whatever the providers and the interleaving of the
  -- workers (the size of a chunk does not wrap when it is added to the end of the range).
  pub call_complete :
      (limits : List ℤ) (from to : ℕ) (logs : List Log)
      → from ≤ to
      → to + round_chunk_size pool 1 limits < u64
      → Calls limits from to (ok logs)
      → Pieces from to logs
  call_complete limits from to logs l u (empty_range below e) = absurd (omega arith)
  call_complete limits from to logs l u (unavailable le none_there e) = absurd (cc)
  call_complete limits from to logs l u (single le some_there small f) = (
    record { index = 0; from = from; to = to; attempts = 0 } ∷ [],
    (refl, l, omega arith, refl),
    subst (Served Answer (record { index = 0; from = from; to = to; attempts = 0 } ∷ []))
        (append-nil logs) (cons (Fetched-ok f) nil),
  )
  call_complete limits from to logs l u (parallel jobs last le two large split reach f e) =
      let size = round_chunk_size pool 1 limits in
      let positive = round_chunk_size_positive pool limits 1 (omega arith) in
      let t = split_Tiles size from to jobs positive l u split in
      (
        jobs,
        Covers-Tiles size from to 0 jobs t,
        Returned-ok (
            subst (Returned pool (attempt_limit pool limits) Answer jobs last.shared) (sym e) (
              round_outcome pool (attempt_limit pool limits) Answer jobs (length limits) from to
                last (omega arith)
                (Covers-nonempty from to jobs l (Covers-Tiles size from to 0 jobs t))
                (attempt_limit_positive limits two) (Indexed-Tiles size from to 0 jobs t) reach f)),
      )
