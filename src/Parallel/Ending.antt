-- ===== src/Parallel/Ending.antt =====
-- A round ends (pool.go): the attempts of its jobs bound its steps, and it can be brought to its
-- end from wherever it stands.
use go_block_walk.Prelude.{
  ℕ, zero, suc, ◌+◌, ◌-◌, ◌*◌, ◌≤◌, ◌<◌, ◌≡◌, refl, inl, inr, none, some, List, [], ◌∷◌, ◌++◌, All,
  arith, length, Option, subst, ap,
}
use go_block_walk.Errors.{GoError}
use go_block_walk.Dispatcher.{Log}
use go_block_walk.Pool.{Pool, ParallelLogJob}
use go_block_walk.Parallel.{
  Shared, Worker, idle, fetching, stored, requeueing, checking, cancelling, gone, Act, quits, takes,
  answers, too_large, gives_up, fails, sends, abandons, stays, leaves, leaves_last, goes_on,
  completes, cancels, Round, Step, acts, interrupted, Reach, here, next, idle_workers,
}
use go_block_walk.Parallel.Totals.{total, total-replace, All-at}
use go_block_walk.Parallel.Places.{HasJob}
use go_block_walk.Parallel.Inv.{Inv, Indexed, size, start, Inv-start, Reach-Inv, Step-Inv}
use go_block_walk.Parallel.Progress.{Finished, progress}

-- What a job, a worker and the context can still cost in steps.
abbrev job_cost : ℕ → ParallelLogJob → ℕ
job_cost limit job = 8 * (limit - job.attempts)

abbrev worker_cost : ℕ → Worker → ℕ
worker_cost limit idle = 1
worker_cost limit (fetching job) = job_cost limit job
worker_cost limit stored = 3
worker_cost limit (requeueing job e) = job_cost limit job + 6
worker_cost limit (checking e) = 5
worker_cost limit cancelling = 2
worker_cost limit gone = 0

abbrev queue_cost : ℕ → List ParallelLogJob → ℕ
queue_cost limit [] = 0
queue_cost limit (job ∷ jobs) = job_cost limit job + queue_cost limit jobs

abbrev parent_cost : Option GoError → ℕ
parent_cost none = 1
parent_cost (some e) = 0

abbrev cost : ℕ → Round → ℕ
cost limit r =
    queue_cost limit r.shared.queue
    + total (worker_cost limit) r.workers
    + parent_cost r.shared.parent_err

queue_cost-append_one :
    (limit : ℕ) (jobs : List ParallelLogJob) (job : ParallelLogJob)
    → queue_cost limit (jobs ++ job ∷ []) ≡ queue_cost limit jobs + job_cost limit job
queue_cost-append_one limit [] job = omega arith
queue_cost-append_one limit (j ∷ jobs) job = omega (arith, queue_cost-append_one limit jobs job)

module _ (pool : Pool) (limit : ℕ) (Answer : ℕ → ℕ → List Log → Type 0)
    (jobs : List ParallelLogJob) where
  Act-cost :
      {s s' : Shared} {w w' : Worker}
      → Act pool limit (size pool limit Answer jobs) Answer s w s' w'
      → HasJob pool limit (size pool limit Answer jobs) Answer jobs w
      → (queue_cost limit s'.queue + worker_cost limit w'
          < queue_cost limit s.queue + worker_cost limit w)
        × (s'.parent_err ≡ s.parent_err)
  Act-cost (quits c) h = (omega arith, refl)
  Act-cost (takes e) h = (omega (arith, ap (queue_cost limit) e), refl)
  Act-cost (answers logs a) h = (omega (arith, h.1), refl)
  Act-cost (too_large e b) h = (omega (arith, h.1), refl)
  Act-cost (gives_up e b l) h = (omega (arith, h.1), refl)
  Act-cost (fails e b l) h = (omega (arith, h.1), refl)
  Act-cost {s} (sends {job} l) h = (omega (arith, queue_cost-append_one limit s.queue job), refl)
  Act-cost (abandons c) h = (omega arith, refl)
  Act-cost stays h = (omega arith, refl)
  Act-cost (leaves n e) h = (omega arith, refl)
  Act-cost (leaves_last e) h = (omega arith, refl)
  Act-cost (goes_on n e) h = (omega arith, refl)
  Act-cost (completes e) h = (omega arith, refl)
  Act-cost cancels h = (omega arith, refl)

  Step-cost :
      {r r' : Round}
      → Inv pool limit Answer jobs r
      → Step pool limit (size pool limit Answer jobs) Answer r r'
      → cost limit r' < cost limit r
  Step-cost {r} {r'} inv (acts before after w w' e e' a) =
      let held =
        subst (All (HasJob pool limit (size pool limit Answer jobs) Answer jobs)) e
          inv.places.held in
      let c = Act-cost a (
        All-at (HasJob pool limit (size pool limit Answer jobs) Answer jobs) before after w held) in
      omega (
        arith,
        c.0,
        ap parent_cost c.1,
        total-replace (worker_cost limit) before after w w',
        ap (total (worker_cost limit)) e,
        ap (total (worker_cost limit)) e',
      )
  Step-cost {r} inv (interrupted x n e) = rw (e, n) (omega arith)

  -- The number of steps of a run.
  abbrev pub steps : {r r' : Round} → Reach pool limit (size pool limit Answer jobs) Answer r r' → ℕ
  steps here = 0
  steps (next reach st) = suc (steps reach)

  steps-cost :
      {r r' : Round}
      → Indexed 0 jobs
      → Inv pool limit Answer jobs r
      → (reach : Reach pool limit (size pool limit Answer jobs) Answer r r')
      → steps reach + cost limit r' ≤ cost limit r
  steps-cost x inv here = omega arith
  steps-cost x inv (next reach st) =
      omega
        (arith, steps-cost x inv reach, Step-cost (Reach-Inv pool limit Answer jobs x reach inv) st)

  start_cost :
      (js : List ParallelLogJob) (i : ℕ)
      → Indexed i js
      → queue_cost limit js ≡ 8 * limit * length js
  start_cost [] i x = omega arith
  start_cost (j ∷ js) i x = grind (arith, start_cost js (suc i) x.2)

  idle_cost : (n : ℕ) → total (worker_cost limit) (idle_workers n) ≡ n
  idle_cost zero = omega arith
  idle_cost (suc n) = omega (arith, idle_cost n)

  -- A round of jobs numbered from 0, with a worker and a job at least and a positive attempt limit,
  -- takes at most 8 * limit steps for each job, one for each worker and one more, whatever the
  -- providers answer and in whatever order the workers run.
  pub steps_bounds :
      (providers : ℕ) {r : Round}
      → 1 ≤ providers
      → 1 ≤ size pool limit Answer jobs
      → 1 ≤ limit
      → Indexed 0 jobs
      → (reach : Reach pool limit
          (size pool limit Answer jobs)
          Answer
          (start pool limit Answer jobs providers)
          r)
      → steps reach ≤ 8 * limit * length jobs + providers + 1
  steps_bounds providers p n l x reach = omega (
    arith,
    steps-cost x (Inv-start pool limit Answer jobs providers p n l x) reach,
    start_cost jobs 0 x,
    idle_cost providers,
  )

  Reach-cons :
      {r r' last : Round}
      → Step pool limit (size pool limit Answer jobs) Answer r r'
      → Reach pool limit (size pool limit Answer jobs) Answer r' last
      → Reach pool limit (size pool limit Answer jobs) Answer r last
  Reach-cons st here = next here st
  Reach-cons st (next reach later) = next (Reach-cons st reach) later

  abbrev pub CanFinish : Round → Type 0
  CanFinish r =
      (last : Round) × Reach pool limit (size pool limit Answer jobs) Answer r last × Finished last

  finish_from :
      (fuel : ℕ) (r : Round)
      → Indexed 0 jobs
      → Inv pool limit Answer jobs r
      → cost limit r < fuel
      → CanFinish r
  finish_from zero r x inv enough = absurd (omega arith)
  finish_from (suc fuel) r x inv enough = elim (progress pool limit Answer jobs inv) [
    | inl finished ↦ (r, here, finished)
    | inr (r', st) ↦
        let (last, reach, finished) =
          finish_from fuel r' x (Step-Inv pool limit Answer jobs x st inv)
            (omega (arith, Step-cost inv st)) in
        (last, Reach-cons st reach, finished)
  ]

  -- From every state of a round of jobs numbered from 0, with a worker and a job at least and a
  -- positive attempt limit, the round can go on until every worker has returned: it is never stuck.
  pub round_finishes :
      (providers : ℕ) (r : Round)
      → 1 ≤ providers
      → 1 ≤ size pool limit Answer jobs
      → 1 ≤ limit
      → Indexed 0 jobs
      → Reach pool limit
          (size pool limit Answer jobs)
          Answer
          (start pool limit Answer jobs providers)
          r
      → CanFinish r
  round_finishes providers r p n l x reach =
      finish_from (suc (cost limit r)) r x
        (Reach-Inv pool limit Answer jobs x reach
          (Inv-start pool limit Answer jobs providers p n l x))
        (omega arith)
