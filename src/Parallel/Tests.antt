-- ===== src/Parallel/Tests.antt =====
-- A round of two jobs and two workers: the first worker's fetch fails and its provider goes down;
-- the second worker fetches both ranges.
use go_block_walk.Prelude.{All, ℕ, ◌≡◌, ◌≤◌, ◌<◌, ◌+◌, ◌*◌, refl, List, [], ◌∷◌, ◌++◌, codes, arith}
use go_block_walk.Prelude.Int.{pos}
use go_block_walk.Errors.{GoError, plain, ok, is_range_too_large_error_with_filters}
use go_block_walk.Dispatcher.{Log}
use go_block_walk.Pool.{
  Pool, ParallelLogJob, range_too_large, split_jobs, job_end, round_chunk_size,
  effective_max_log_block_range, job_attempt_limit,
}
use go_block_walk.Parallel.{
  Shared, Worker, idle, fetching, stored, requeueing, checking, cancelling, gone, Act, takes,
  answers, fails, sends, leaves, goes_on, completes, cancels, Round, acts, Reach, here, next,
  outcome, gather,
}
use go_block_walk.Parallel.Inv.{Indexed, Inv, start, round-Inv}
use go_block_walk.Parallel.Ending.{CanFinish, steps, steps_bounds, round_finishes}
use go_block_walk.Parallel.Totals.{has}
use go_block_walk.Parallel.Reports.{reports}
use go_block_walk.Parallel.Reports.Acts.{Signed, successes_of, attempts_of}
use go_block_walk.Parallel.Reports.Bounds.{round_reports}
use go_block_walk.Parallel.Call.{parallel, Pieces, call_complete}

abbrev two_block_pool : Pool
two_block_pool = record {
  max_log_block_range = pos 2;
  max_parallel_job_attempts = pos 0;
  range_too_large_filters = [];
}

abbrev log_of : ℕ → Log
log_of b = record { block_number = b; content = [] }

-- One log, of the first block of the range.
abbrev OneLog : ℕ → ℕ → List Log → Type 0
OneLog from to logs = logs ≡ log_of from ∷ []

abbrev job : ℕ → ℕ → ℕ → ℕ → ParallelLogJob
job i from to attempts = record { index = i; from = from; to = to; attempts = attempts }

abbrev two_jobs : List ParallelLogJob
two_jobs = job 0 10 11 0 ∷ job 1 12 13 0 ∷ []

abbrev refused : GoError
refused = plain (codes "connection refused")

refused-not_large : range_too_large two_block_pool refused ≡ mathlib.Core.Bool.false
unfolding range_too_large is_range_too_large_error_with_filters
refused-not_large = refl

abbrev first : Round
first = start two_block_pool 4 OneLog two_jobs 2

abbrev Run : Round → Type 0
Run r = Reach two_block_pool 4 2 OneLog first r

-- A run so far, and one more step.
abbrev Runs : Type 0
Runs = (r : Round) × Run r

abbrev then_act :
    {s' : Shared} {w' : Worker} (m : Runs) (before after : List Worker) (w : Worker)
    → m.0.workers ≡ before ++ w ∷ after
    → Act two_block_pool 4 2 OneLog m.0.shared w s' w'
    → Runs
then_act {s'} {w'} m before after w e a = (
  record { shared = s'; workers = before ++ w' ∷ after },
  next m.1 (acts before after w w' e refl a),
)

abbrev both_fetch : Runs
both_fetch =
    then_act (then_act (first, here) [] (idle ∷ []) idle refl (takes refl))
      (fetching (job 0 10 11 0) ∷ []) [] idle refl (takes refl)

abbrev one_stored : Runs
one_stored =
    then_act
      (then_act both_fetch (fetching (job 0 10 11 0) ∷ []) [] (fetching (job 1 12 13 0)) refl
        (answers (log_of 12 ∷ []) refl))
      (fetching (job 0 10 11 0) ∷ []) [] stored refl (goes_on 0 refl)

abbrev given_back : Runs
given_back =
    then_act
      (then_act one_stored [] (idle ∷ []) (fetching (job 0 10 11 0)) refl
        (fails refused refused-not_large (omega arith)))
      [] (idle ∷ []) (requeueing (job 0 10 11 1) refused) refl (sends (omega arith))

abbrev taken_over : Runs
taken_over =
    then_act (then_act given_back [] (idle ∷ []) (checking refused) refl (leaves 0 refl))
      (gone ∷ []) [] idle refl (takes refl)

abbrev finished : Runs
finished =
    then_act
      (then_act
        (then_act taken_over (gone ∷ []) [] (fetching (job 0 10 11 1)) refl
          (answers (log_of 10 ∷ []) refl))
        (gone ∷ []) [] stored refl (completes refl))
      (gone ∷ []) [] cancelling refl cancels

two_jobs-Indexed : Indexed 0 two_jobs
two_jobs-Indexed = (refl, refl, (refl, refl, tt))

finished-logs : outcome 2 10 13 finished.0.shared ≡ ok (log_of 10 ∷ log_of 12 ∷ [])
unfolding outcome gather
finished-logs = refl

round-Inv_example : Inv two_block_pool 4 OneLog two_jobs given_back.0
round-Inv_example =
    round-Inv two_block_pool 4 OneLog two_jobs 2 given_back.0 (omega arith) (omega arith)
      (omega arith) two_jobs-Indexed given_back.1

round_finishes_example : CanFinish two_block_pool 4 OneLog two_jobs given_back.0
round_finishes_example =
    round_finishes two_block_pool 4 OneLog two_jobs 2 given_back.0 (omega arith) (omega arith)
      (omega arith) two_jobs-Indexed given_back.1

steps_bounds_example : steps two_block_pool 4 OneLog two_jobs finished.1 ≤ 8 * 4 * 2 + 2 + 1
steps_bounds_example =
    steps_bounds two_block_pool 4 OneLog two_jobs 2 (omega arith) (omega arith) (omega arith)
      two_jobs-Indexed finished.1

call_complete_example : Pieces two_block_pool OneLog 10 13 (log_of 10 ∷ log_of 12 ∷ [])
unfolding job_attempt_limit round_chunk_size split_jobs job_end outcome gather
    effective_max_log_block_range
call_complete_example =
    call_complete two_block_pool OneLog (pos 0 ∷ pos 0 ∷ []) 10 13 (log_of 10 ∷ log_of 12 ∷ [])
      (omega arith) (omega arith)
      (parallel two_jobs finished.0 (omega arith) (omega arith) (omega arith) refl finished.1
        (refl, (refl, tt)) refl)

-- Three fetches ended, two of them well.
round_reports_example :
    let rs = reports two_block_pool 4 2 OneLog finished.1 in
    Signed 2 2 rs
    × ((k : ℕ) → successes_of k rs ≡ has (finished.0.shared.results k))
    × ((k : ℕ) → attempts_of k rs ≤ 4)
    × All (λ j. attempts_of j.index rs ≡ j.attempts) finished.0.shared.queue
    × ((logs : List Log)
        → outcome 2 10 13 finished.0.shared ≡ ok logs
        → (k : ℕ) → k < 2
        → successes_of k rs ≡ 1)
round_reports_example =
    round_reports two_block_pool 4 OneLog two_jobs 2 10 13 finished.0 (omega arith) (omega arith)
      (omega arith) two_jobs-Indexed finished.1
