-- ===== src/Parallel/Reports/Bounds.antt =====
-- How many fetches a round of LogsByBlockRangeParallel (pool.go) reports.
use go_block_walk.Prelude.{
  ℕ, zero, suc, ◌≤◌, ◌<◌, ◌-◌, In, All-In, ◌≡◌, ◌≢◌, refl, Option, none, some, List, [], ◌∷◌, All,
  arith, length, subst, ◌∙◌, ◌==◌, Bool-cases, sym, inl, inr,
}
use go_block_walk.Errors.{GoError, ok}
use go_block_walk.Dispatcher.{Log}
use go_block_walk.Pool.{Pool, ParallelLogJob}
use go_block_walk.Parallel.{
  Shared, Round, Reach, idle_workers, outcome, after_wait, without_error, unfinished,
}
use go_block_walk.Parallel.Totals.{has, filled_all}
use go_block_walk.Parallel.Places.{IsJob}
use go_block_walk.Parallel.Inv.{Inv, Indexed, size, start, Inv-start, Reach-Inv, total_idle}
use go_block_walk.Parallel.Reports.{Report, reports}
use go_block_walk.Parallel.Reports.Acts.{
  successes_of, attempts_of, worker_spent, queue_spent, Signed, worker_tries, queue_tries,
}
use go_block_walk.Parallel.Reports.Adds.{Adds, Reach-Adds}

module _ (pool : Pool) (limit : ℕ) (Answer : ℕ → ℕ → List Log → Type 0)
    (jobs : List ParallelLogJob) where
  abbrev N : ℕ
  N = size pool limit Answer jobs

  start_tries :
      (k i : ℕ) (js : List ParallelLogJob)
      → Indexed i js
      → (queue_tries k limit js ≤ limit) × (k < i → queue_tries k limit js ≡ 0)
  start_tries k i [] x = ground arith
  start_tries k i (j ∷ js) x = ground (arith, start_tries k (suc i) js x.2)

  start_spent : (k i : ℕ) (js : List ParallelLogJob) → Indexed i js → queue_spent k js ≡ 0
  start_spent k i [] x = omega arith
  start_spent k i (j ∷ js) x = ground (arith, start_spent k (suc i) js x.2)

  queue_share :
      (js : List ParallelLogJob) (job : ParallelLogJob)
      → In job js
      → (job.attempts ≤ queue_spent job.index js)
        × (limit - job.attempts ≤ queue_tries job.index limit js)
  queue_share [] job i = elim i [ ]
  queue_share (j ∷ js) job (In.here e) = rw e (ground arith)
  queue_share (j ∷ js) job (In.there i) =
      let r = queue_share js job i in (omega (arith, r.0), omega (arith, r.1))

  All-of_In :
      (P : ParallelLogJob → Type 0) (js : List ParallelLogJob)
      → ((job : ParallelLogJob) → In job js → P job)
      → All P js
  All-of_In P [] h = tt
  All-of_In P (j ∷ js) h = (h j (In.here refl), All-of_In P js (λ job i. h job (In.there i)))

  -- The reports for a job in the queue are as many as its failed attempts.
  queued-attempts :
      (providers : ℕ) (r : Round) (rs : List Report)
      → Indexed 0 jobs
      → Inv pool limit Answer jobs r
      → Adds pool limit Answer jobs (start pool limit Answer jobs providers) r rs
      → All (λ job. attempts_of job.index rs ≡ job.attempts) r.shared.queue
  queued-attempts providers r rs x inv a = All-of_In _ r.shared.queue λ job i.
      let mine = All-In (IsJob pool limit N Answer jobs) r.shared.queue inv.places.queued i in
      let share = queue_share r.shared.queue job i in
      omega (
        arith,
        mine.1,
        share.0,
        share.1,
        a.tried job.index,
        a.backed job.index,
        (start_tries job.index 0 jobs x).0,
        start_spent job.index 0 jobs x,
        total_idle (worker_tries job.index limit) providers refl,
        total_idle (worker_spent job.index) providers refl,
      )

  length_idle : (n : ℕ) → length (idle_workers n) ≡ n
  length_idle zero = omega arith
  length_idle (suc n) = omega (arith, length_idle n)

  unfinished-not_ok :
      (from to : ℕ) (o : Option GoError) (logs : List Log) → unfinished from to o ≢ ok logs
  unfolding unfinished
  unfinished-not_ok from to (some e) logs = λ q. cc
  unfinished-not_ok from to none logs = λ q. cc

  ok-remaining :
      (from to : ℕ) (s : Shared) (first : Option GoError) (logs : List Log)
      → after_wait N from to s first ≡ ok logs
      → s.remaining ≡ 0
  unfolding after_wait without_error
  ok-remaining from to s (some e) logs q = absurd (cc)
  ok-remaining from to s none logs q = elim (Bool-cases (s.remaining == 0)) [
    | inl zero_left ↦ ground (arith, zero_left)
    | inr more ↦
        let e : without_error N from to s ≡ unfinished from to s.parent_err = rw more refl in
        absurd (unfinished-not_ok from to s.parent_err logs (sym e ∙ q))
  ]

  -- In every state of a round of jobs numbered from 0, with a worker and a job at least and a positive
  -- attempt limit: each report is by one of the workers and for one of the jobs, each job has had a
  -- success reported once if its result is there and never if it is not, and at most `limit`
  -- reports in all; a job in the queue has had as many as it counts attempts. When the call returns
  -- logs, each job has had one success reported.
  pub round_reports :
      (providers from to : ℕ) (r : Round)
      → 1 ≤ providers
      → 1 ≤ N
      → 1 ≤ limit
      → Indexed 0 jobs
      → (reach : Reach pool limit N Answer (start pool limit Answer jobs providers) r)
      → let rs = reports pool limit N Answer reach in
        Signed providers N rs
        × ((k : ℕ) → successes_of k rs ≡ has (r.shared.results k))
        × ((k : ℕ) → attempts_of k rs ≤ limit)
        × All (λ job. attempts_of job.index rs ≡ job.attempts) r.shared.queue
        × ((logs : List Log)
            → outcome N from to r.shared ≡ ok logs
            → (k : ℕ) → k < N
            → successes_of k rs ≡ 1)
  unfolding outcome
  round_reports providers from to r p n l x reach =
      let inv = Inv-start pool limit Answer jobs providers p n l x in
      let a = Reach-Adds pool limit Answer jobs x inv reach in
      let last = Reach-Inv pool limit Answer jobs x reach inv in
      let rs = reports pool limit N Answer reach in
      let credit : (k : ℕ) → successes_of k rs ≡ has (r.shared.results k) =
        λ k. omega (arith, a.credited k) in
      (
        subst (λ m. Signed m N rs) (length_idle providers) a.signed,
        credit,
        λ k. omega (
          arith,
          a.tried k,
          (start_tries k 0 jobs x).0,
          total_idle (worker_tries k limit) providers refl,
        ),
        queued-attempts providers r rs x last a,
        λ logs e k inside.
            credit k
            ∙ filled_all N k r.shared.results
                (omega (
                  arith,
                  last.counts.counted,
                  ok-remaining from to r.shared r.shared.first_err logs e,
                ))
                inside,
      )
