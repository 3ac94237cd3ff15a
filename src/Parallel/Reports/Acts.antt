-- ===== src/Parallel/Reports/Acts.antt =====
-- What a step of a round of LogsByBlockRangeParallel (pool.go) adds to its reports.
use go_block_walk.Prelude.{
  ℕ, ◌+◌, ◌-◌, ◌≤◌, ◌<◌, ◌≡◌, Option, none, some, List, [], ◌∷◌, ◌++◌, All, arith, ap, ==_iff, ◌==◌,
  Bool-cases, inl, inr, subst, true, false, if◌then◌else◌,
}
use go_block_walk.Errors.{GoError}
use go_block_walk.Dispatcher.{Log}
use go_block_walk.Pool.{Pool, ParallelLogJob}
use go_block_walk.Parallel.{
  Shared, Worker, fetching, requeueing, Act, quits, takes, answers, too_large, gives_up, fails,
  sends, abandons, stays, leaves, leaves_last, goes_on, completes, cancels,
}
use go_block_walk.Parallel.Totals.{has}
use go_block_walk.Parallel.Places.{HasJob}
use go_block_walk.Parallel.Counts.{Fresh}
use go_block_walk.Parallel.Inv.{size}
use go_block_walk.Parallel.Reports.{Report, act_reports}

abbrev pub success : Option GoError → ℕ
success none = 1
success (some e) = 0

-- How many of the reports are of a success for job `k`.
abbrev pub successes_of : ℕ → List Report → ℕ
successes_of k [] = 0
successes_of k (r ∷ rs) = (if r.job == k then success r.failure else 0) + successes_of k rs

-- How many of the reports are for job `k`.
abbrev pub attempts_of : ℕ → List Report → ℕ
attempts_of k [] = 0
attempts_of k (r ∷ rs) = (if r.job == k then 1 else 0) + attempts_of k rs

pub successes_of-append :
    (k : ℕ) (xs ys : List Report)
    → successes_of k (xs ++ ys) ≡ successes_of k xs + successes_of k ys
successes_of-append k [] ys = omega arith
successes_of-append k (x ∷ xs) ys = omega (arith, successes_of-append k xs ys)

pub attempts_of-append :
    (k : ℕ) (xs ys : List Report) → attempts_of k (xs ++ ys) ≡ attempts_of k xs + attempts_of k ys
attempts_of-append k [] ys = omega arith
attempts_of-append k (x ∷ xs) ys = omega (arith, attempts_of-append k xs ys)

-- Each report is of one of `workers` workers and of one of `n` jobs.
abbrev pub Signed : ℕ → ℕ → List Report → Type 0
Signed workers n rs = All (λ r. (r.worker < workers) × (r.job < n)) rs

-- The attempts at job `k` that a job, a worker and the queue have left.
abbrev pub tries : ℕ → ℕ → ParallelLogJob → ℕ
tries k limit job = if job.index == k then limit - job.attempts else 0

abbrev pub worker_tries : ℕ → ℕ → Worker → ℕ
worker_tries k limit (fetching job) = tries k limit job
worker_tries k limit (requeueing job e) = tries k limit job
worker_tries k limit _ = 0

abbrev pub queue_tries : ℕ → ℕ → List ParallelLogJob → ℕ
queue_tries k limit [] = 0
queue_tries k limit (job ∷ jobs) = tries k limit job + queue_tries k limit jobs

queue_tries-append_one :
    (k limit : ℕ) (jobs : List ParallelLogJob) (job : ParallelLogJob)
    → queue_tries k limit (jobs ++ job ∷ []) ≡ queue_tries k limit jobs + tries k limit job
queue_tries-append_one k limit [] job = omega arith
queue_tries-append_one k limit (j ∷ jobs) job =
    omega (arith, queue_tries-append_one k limit jobs job)

-- The attempts at job `k` that a worker and the queue have behind them.
abbrev pub spent_at : ℕ → ParallelLogJob → ℕ
spent_at k job = if job.index == k then job.attempts else 0

abbrev pub worker_spent : ℕ → Worker → ℕ
worker_spent k (fetching job) = spent_at k job
worker_spent k (requeueing job e) = spent_at k job
worker_spent k _ = 0

abbrev pub queue_spent : ℕ → List ParallelLogJob → ℕ
queue_spent k [] = 0
queue_spent k (job ∷ jobs) = spent_at k job + queue_spent k jobs

queue_spent-append_one :
    (k : ℕ) (jobs : List ParallelLogJob) (job : ParallelLogJob)
    → queue_spent k (jobs ++ job ∷ []) ≡ queue_spent k jobs + spent_at k job
queue_spent-append_one k [] job = omega arith
queue_spent-append_one k (j ∷ jobs) job = omega (arith, queue_spent-append_one k jobs job)

module _ (pool : Pool) (limit : ℕ) (Answer : ℕ → ℕ → List Log → Type 0)
    (jobs : List ParallelLogJob) where
  abbrev pub N : ℕ
  N = size pool limit Answer jobs

  pub Act-successes :
      {s s' : Shared} {w w' : Worker} (k i : ℕ) (a : Act pool limit N Answer s w s' w')
      → Fresh pool limit N Answer s w
      → successes_of k (act_reports pool limit N Answer i a) + has (s.results k)
        ≡ has (s'.results k)
  Act-successes {s} k i (answers {job} logs a) f = elim (Bool-cases (job.index == k)) [
    | inl mine ↦
        let e : job.index ≡ k = (==_iff job.index k).0 mine in
        let e' : (k == job.index) ≡ true = ground (arith, mine) in
        let z : s.results k ≡ none = subst (λ j. s.results j ≡ none) e f.0 in
        rw (mine, e', z) (omega arith)
    | inr other ↦
        let e' : (k == job.index) ≡ false = ground (arith, other) in rw (other, e') (omega arith)
  ]
  Act-successes k i (too_large e b) f = ground arith
  Act-successes k i (gives_up e b l) f = ground arith
  Act-successes k i (fails e b l) f = ground arith
  Act-successes k i (quits c) f = omega arith
  Act-successes k i (takes e) f = omega arith
  Act-successes k i (sends l) f = omega arith
  Act-successes k i (abandons c) f = omega arith
  Act-successes k i stays f = omega arith
  Act-successes k i (leaves n e) f = omega arith
  Act-successes k i (leaves_last e) f = omega arith
  Act-successes k i (goes_on n e) f = omega arith
  Act-successes k i (completes e) f = omega arith
  Act-successes k i cancels f = omega arith

  pub Act-attempts :
      {s s' : Shared} {w w' : Worker} (k i : ℕ) (a : Act pool limit N Answer s w s' w')
      → HasJob pool limit N Answer jobs w
      → attempts_of k (act_reports pool limit N Answer i a)
          + (queue_tries k limit s'.queue + worker_tries k limit w')
        ≤ queue_tries k limit s.queue + worker_tries k limit w
  Act-attempts k i (quits c) h = omega arith
  Act-attempts k i (takes e) h = omega (arith, ap (queue_tries k limit) e)
  Act-attempts k i (answers logs a) h = ground (arith, h.1)
  Act-attempts k i (too_large e b) h = ground (arith, h.1)
  Act-attempts k i (gives_up e b l) h = ground (arith, h.1)
  Act-attempts k i (fails e b l) h = ground (arith, h.1)
  Act-attempts {s} k i (sends {job} l) h = omega (arith, queue_tries-append_one k limit s.queue job)
  Act-attempts k i (abandons c) h = omega arith
  Act-attempts k i stays h = omega arith
  Act-attempts k i (leaves n e) h = omega arith
  Act-attempts k i (leaves_last e) h = omega arith
  Act-attempts k i (goes_on n e) h = omega arith
  Act-attempts k i (completes e) h = omega arith
  Act-attempts k i cancels h = omega arith

  pub Act-spent :
      {s s' : Shared} {w w' : Worker} (k i : ℕ) (a : Act pool limit N Answer s w s' w')
      → queue_spent k s'.queue + worker_spent k w'
        ≤ queue_spent k s.queue
          + worker_spent k w
          + attempts_of k (act_reports pool limit N Answer i a)
  Act-spent k i (takes e) = omega (arith, ap (queue_spent k) e)
  Act-spent {s} k i (sends {job} l) = omega (arith, queue_spent-append_one k s.queue job)
  Act-spent k i (fails e b l) = ground arith
  Act-spent k i (quits c) = omega arith
  Act-spent k i (answers logs a) = omega arith
  Act-spent k i (too_large e b) = omega arith
  Act-spent k i (gives_up e b l) = omega arith
  Act-spent k i (abandons c) = omega arith
  Act-spent k i (leaves n e) = omega arith
  Act-spent k i (leaves_last e) = omega arith
  Act-spent k i (goes_on n e) = omega arith
  Act-spent k i (completes e) = omega arith
  Act-spent k i stays = omega arith
  Act-spent k i cancels = omega arith

  pub Act-Signed :
      {s s' : Shared} {w w' : Worker} (i n : ℕ) (a : Act pool limit N Answer s w s' w')
      → i < n
      → Fresh pool limit N Answer s w
      → Signed n N (act_reports pool limit N Answer i a)
  Act-Signed i n (answers logs a) l f = ((l, f.1), tt)
  Act-Signed i n (too_large e b) l f = ((l, f.1), tt)
  Act-Signed i n (gives_up e b l') l f = ((l, f.1), tt)
  Act-Signed i n (fails e b l') l f = ((l, f.1), tt)
  Act-Signed i n (quits c) l f = tt
  Act-Signed i n (takes e) l f = tt
  Act-Signed i n (sends l') l f = tt
  Act-Signed i n (abandons c) l f = tt
  Act-Signed i n stays l f = tt
  Act-Signed i n (leaves m e) l f = tt
  Act-Signed i n (leaves_last e) l f = tt
  Act-Signed i n (goes_on m e) l f = tt
  Act-Signed i n (completes e) l f = tt
  Act-Signed i n cancels l f = tt
