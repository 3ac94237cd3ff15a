-- ===== src/Parallel.antt =====
-- pool.go: the round of LogsByBlockRangeParallel, one worker for each available provider over a
-- queue of jobs. A worker's step is one access of what the workers share; steps of different
-- workers interleave in any order. What a provider answers, and whether it is still available, is
-- left open.
pub mod Totals
pub mod Places
pub mod Counts
pub mod Inv
pub mod Progress
pub mod Ending
pub mod Answers
pub mod Call
pub mod Reports
mod Tests
use go_block_walk.Prelude.{
  ℕ, zero, suc, ◌+◌, ◌≤◌, ◌<◌, ◌≡◌, Bool, true, false, Option, none, some, List, [], ◌∷◌, ◌++◌,
  length, codes, Text, ◌==◌, if◌then◌else◌,
}
use go_block_walk.Prelude.Strings.{decimal}
use go_block_walk.Errors.{GoError, plain, wrap, Result, ok, err}
use go_block_walk.Dispatcher.{Log}
use go_block_walk.Pool.{Pool, ParallelLogJob, range_too_large}

-- results[i], nil at first
abbrev pub Results : Type 0
Results = ℕ → Option (List Log)

abbrev pub put : Results → ℕ → List Log → Results
put results i logs j = if j == i then some logs else results j

-- What the workers share: the channel's buffer, the variables of the round, and whether `runCtx` is
-- done. `parent_err` is the error of the caller's context, once that has ended.
pub record Shared : Type 0 where
  pub queue : List ParallelLogJob
  pub results : Results
  pub remaining : ℕ
  pub active : ℕ
  pub first_err : Option GoError
  pub cancelled : Bool
  pub parent_err : Option GoError

-- Where a worker stands: at the select, in FilterLogs, after the write of its result, before the send
-- that gives a failed job back, after it, in `cancel()`, or returned.
pub data Worker : Type 0 where
  idle : Worker
  fetching : ParallelLogJob → Worker
  stored : Worker
  requeueing : ParallelLogJob → GoError → Worker
  checking : GoError → Worker
  cancelling : Worker
  gone : Worker

-- if firstErr == nil { firstErr = err }
abbrev pub first_error : Option GoError → GoError → Option GoError
first_error none e = some e
first_error (some first) e = some first

abbrev chunk_text : ParallelLogJob → Text
chunk_text job =
    codes "idx: parallel backfill chunk " ++ (decimal job.from ++ (codes ".." ++ decimal job.to))

unfoldable pub too_large_error : ParallelLogJob → GoError → GoError
too_large_error job e = wrap (chunk_text job ++ codes " rejected as too large: ") e

unfoldable pub attempts_error : ParallelLogJob → GoError → GoError
attempts_error job e =
    wrap
      (chunk_text job
        ++ (codes " failed after " ++ (decimal (job.attempts + 1) ++ codes " attempts: ")))
      e

unfoldable pub every_provider_error : GoError → GoError
every_provider_error e =
    wrap (codes "idx: parallel backfill exhausted every provider before finishing: ") e

pub record Round : Type 0 where
  pub shared : Shared
  pub workers : List Worker

-- The round's constants: the pool, attemptLimit, the capacity of the channel, and what a provider may
-- answer for a range.
module _ (pool : Pool) (limit capacity : ℕ) (Answer : ℕ → ℕ → List Log → Type 0) where
  -- One step of one worker. A counter is decremented to zero, or is not.
  pub data Act (s : Shared) : Worker → Shared → Worker → Type 0 where
    quits : s.cancelled ≡ true → Act s idle s gone
    takes :
        {job : ParallelLogJob} {rest : List ParallelLogJob}
        → s.queue ≡ job ∷ rest
        → Act s idle (record s { queue = rest }) (fetching job)
    answers :
        {job : ParallelLogJob} (logs : List Log)
        → Answer job.from job.to logs
        → Act s (fetching job) (record s { results = put s.results job.index logs }) stored
    too_large :
        {job : ParallelLogJob} (e : GoError)
        → range_too_large pool e ≡ true
        → Act s
            (fetching job)
            (record s { first_err = first_error s.first_err (too_large_error job e) })
            cancelling
    gives_up :
        {job : ParallelLogJob} (e : GoError)
        → range_too_large pool e ≡ false
        → limit ≤ job.attempts + 1
        → Act s
            (fetching job)
            (record s { first_err = first_error s.first_err (attempts_error job e) })
            cancelling
    fails :
        {job : ParallelLogJob} (e : GoError)
        → range_too_large pool e ≡ false
        → job.attempts + 1 < limit
        → Act s (fetching job) s (requeueing (record job { attempts = job.attempts + 1 }) e)
    sends :
        {job : ParallelLogJob} {e : GoError}
        → length s.queue < capacity
        → Act s (requeueing job e) (record s { queue = s.queue ++ job ∷ [] }) (checking e)
    abandons :
        {job : ParallelLogJob} {e : GoError} → s.cancelled ≡ true → Act s (requeueing job e) s gone
    stays : {e : GoError} → Act s (checking e) s idle
    leaves :
        {e : GoError} (n : ℕ)
        → s.active ≡ suc (suc n)
        → Act s (checking e) (record s { active = suc n }) gone
    leaves_last :
        {e : GoError}
        → s.active ≡ suc zero
        → Act s
            (checking e)
            (record s { active = 0; first_err = first_error s.first_err (every_provider_error e) })
            cancelling
    goes_on :
        (n : ℕ) → s.remaining ≡ suc (suc n) → Act s stored (record s { remaining = suc n }) idle
    completes : s.remaining ≡ suc zero → Act s stored (record s { remaining = 0 }) cancelling
    cancels : Act s cancelling (record s { cancelled = true }) gone

  -- A step of the round: one worker acts, or the caller's context ends.
  pub data Step (r r' : Round) : Type 0 where
    acts :
        (before after : List Worker) (w w' : Worker)
        → r.workers ≡ before ++ w ∷ after
        → r'.workers ≡ before ++ w' ∷ after
        → Act r.shared w r'.shared w'
        → Step r r'
    interrupted :
        (e : GoError)
        → r.shared.parent_err ≡ none
        → r' ≡ record r { shared = record r.shared { cancelled = true; parent_err = some e } }
        → Step r r'

  pub data Reach (r : Round) : Round → Type 0 where
    here : Reach r r
    next : {r' r'' : Round} → Reach r r' → Step r' r'' → Reach r r''

abbrev pub idle_workers : ℕ → List Worker
idle_workers zero = []
idle_workers (suc n) = idle ∷ idle_workers n

abbrev pub start_shared : List ParallelLogJob → ℕ → Shared
start_shared jobs providers = record {
  queue = jobs;
  results = λ _. none;
  remaining = length jobs;
  active = providers;
  first_err = none;
  cancelled = false;
  parent_err = none;
}

-- for _, r := range results { out = append(out, r...) }, from index `i`, over `n` results
abbrev or_nil : Option (List Log) → List Log
or_nil none = []
or_nil (some logs) = logs

unfoldable pub gather : ℕ → ℕ → Results → List Log
gather zero i results = []
gather (suc n) i results = or_nil (results i) ++ gather n (suc i) results

abbrev pub aborted_error : ℕ → ℕ → GoError
aborted_error from to = plain (
    codes "idx: parallel backfill of "
    ++ (decimal from ++ (codes ".." ++ (decimal to ++ codes " aborted before completion"))))

unfinished : ℕ → ℕ → Option GoError → Result (List Log)
unfinished from to (some e) = err e
unfinished from to none = err (aborted_error from to)

without_error : ℕ → ℕ → ℕ → Shared → Result (List Log)
unfolding unfinished
without_error n from to s =
    if s.remaining == 0 then ok (gather n 0 s.results) else unfinished from to s.parent_err

after_wait : ℕ → ℕ → ℕ → Shared → Option GoError → Result (List Log)
after_wait n from to s (some e) = err e
after_wait n from to s none = without_error n from to s

-- What the call returns when every worker has returned, for `n` jobs.
unfoldable pub outcome : ℕ → ℕ → ℕ → Shared → Result (List Log)
unfolding after_wait without_error
outcome n from to s = after_wait n from to s s.first_err
