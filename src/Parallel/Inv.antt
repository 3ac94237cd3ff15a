-- ===== src/Parallel/Inv.antt =====
-- The invariant of a round of LogsByBlockRangeParallel (pool.go), from its start on.
use go_block_walk.Prelude.{
  ℕ, zero, suc, ◌+◌, ◌≤◌, ◌<◌, ◌≡◌, refl, none, some, List, [], ◌∷◌, ◌++◌, All, In, arith, length,
  subst, ap, Option,
}
use go_block_walk.Dispatcher.{Log}
use go_block_walk.Pool.{Pool, ParallelLogJob}
use go_block_walk.Parallel.{
  Worker, idle, fetching, stored, requeueing, checking, cancelling, gone, Round, Step, Reach, here,
  next, start_shared, idle_workers,
}
use go_block_walk.Parallel.Totals.{
  total, total-ge, All-at, live, holds, holds_at, one_at, uncounted, stopping, occurs, has,
  filled-none,
}
use go_block_walk.Parallel.Places.{IsJob, HasJob, Places, Step-Places}
use go_block_walk.Parallel.Counts.{Counts, sums, Fresh, Step-Counts}

-- The jobs have the indexes from `i` on, in order, and are untried.
abbrev pub Indexed : ℕ → List ParallelLogJob → Type 0
Indexed i [] = Unit
Indexed i (job ∷ jobs) = (job.index ≡ i) × (job.attempts ≡ 0) × Indexed (suc i) jobs

pub In-Indexed :
    (i : ℕ) (jobs : List ParallelLogJob) (job : ParallelLogJob)
    → Indexed i jobs
    → In job jobs
    → (i ≤ job.index) × (job.index < i + length jobs)
In-Indexed i [] job h m = elim m [ ]
In-Indexed i (j ∷ jobs) job h (In.here e) =
    let q : job.index ≡ j.index = ap (λ x. x.index) e in omega arith
In-Indexed i (j ∷ jobs) job h (In.there m) =
    let r = In-Indexed (suc i) jobs job h.2 m in omega arith

occurs-Indexed :
    (k i : ℕ) (jobs : List ParallelLogJob)
    → Indexed k jobs
    → (occurs i jobs ≤ 1) × (i < k → occurs i jobs ≡ 0)
occurs-Indexed k i [] h = ground arith
occurs-Indexed k i (job ∷ jobs) h = ground (arith, occurs-Indexed (suc k) i jobs h.2)

pub total_idle : (f : Worker → ℕ) (n : ℕ) → f idle ≡ 0 → total f (idle_workers n) ≡ 0
total_idle f zero h = omega arith
total_idle f (suc n) h = omega (arith, total_idle f n h)

total-live_idle : (n : ℕ) → total live (idle_workers n) ≡ n
total-live_idle zero = omega arith
total-live_idle (suc n) = omega (arith, total-live_idle n)

module _ (pool : Pool) (limit : ℕ) (Answer : ℕ → ℕ → List Log → Type 0)
    (jobs : List ParallelLogJob) where
  abbrev pub size : ℕ
  size = length jobs

  pub record Inv (r : Round) : Type 0 where
    pub places : Places pool limit size Answer jobs r.shared r.workers
    pub counts : Counts size r.shared (sums r.workers)

  abbrev pub start : ℕ → Round
  start providers = record {
    shared = start_shared jobs providers;
    workers = idle_workers providers;
  }

  All-IsJob :
      (js : List ParallelLogJob) (i : ℕ)
      → 1 ≤ limit
      → Indexed i js
      → ((job : ParallelLogJob) → In job js → In job jobs)
      → All (IsJob pool limit size Answer jobs) js
  All-IsJob [] i p x inside = tt
  All-IsJob (j ∷ js) i p x inside = (
    (subst (λ k. In (record j { attempts = k }) jobs) x.1 (inside j (In.here refl)), omega arith),
    All-IsJob js (suc i) p x.2 (λ job m. inside job (In.there m)),
  )

  All-HasJob_idle : (n : ℕ) → All (HasJob pool limit size Answer jobs) (idle_workers n)
  All-HasJob_idle zero = tt
  All-HasJob_idle (suc n) = (tt, All-HasJob_idle n)

  pub Inv-start :
      (providers : ℕ)
      → 1 ≤ providers
      → 1 ≤ size
      → 1 ≤ limit
      → Indexed 0 jobs
      → Inv (start providers)
  Inv-start providers p n l x = record {
    places = record {
      unique =
          λ i. omega (arith, (occurs-Indexed 0 i jobs x).0, total_idle (holds_at i) providers refl);
      queued = All-IsJob jobs 0 l x (λ job m. m);
      held = All-HasJob_idle providers;
      results = λ i logs e. cc;
    };
    counts = record {
      room = omega (arith, filled-none size, total_idle holds providers refl);
      counted = omega (arith, filled-none size, total_idle uncounted providers refl);
      manned = omega (arith, total-live_idle providers);
      kept = λ c z. (omega arith, omega (arith, total-live_idle providers), p, n);
      stopped = λ z. absurd (omega (arith, total_idle stopping providers refl));
      over = λ c. cc;
    };
  }

  none_yet : (o : Option (List Log)) → has o ≡ 0 → o ≡ none
  none_yet none h = refl
  none_yet (some logs) h = absurd (omega arith)

  pub fresh :
      {r : Round} (before after : List Worker) (w : Worker)
      → Indexed 0 jobs
      → Inv r
      → r.workers ≡ before ++ w ∷ after
      → Fresh pool limit size Answer r.shared w
  fresh {r} before after (fetching job) x inv e =
      let held = subst (All (HasJob pool limit size Answer jobs)) e inv.places.held in
      let mine = All-at (HasJob pool limit size Answer jobs) before after (fetching job) held in
      let range = In-Indexed 0 jobs (record job { attempts = 0 }) x mine.0 in
      let here_too : one_at job.index job ≡ 1 = ground arith in
      (
        none_yet (r.shared.results job.index) (
            omega (
              arith,
              inv.places.unique job.index,
              total-ge (holds_at job.index) before after (fetching job),
              ap (total (holds_at job.index)) e,
            )),
        omega arith,
      )
  fresh before after idle x inv e = tt
  fresh before after stored x inv e = tt
  fresh before after (requeueing job y) x inv e = tt
  fresh before after (checking y) x inv e = tt
  fresh before after cancelling x inv e = tt
  fresh before after gone x inv e = tt

  pub Step-Inv : {r r' : Round} → Indexed 0 jobs → Step pool limit size Answer r r' → Inv r → Inv r'
  Step-Inv {r} x st inv = record {
    places = Step-Places pool limit size Answer jobs st inv.places;
    counts =
        Step-Counts pool limit size Answer st (λ before after w e. fresh before after w x inv e)
          inv.counts;
  }

  pub Reach-Inv :
      {r r' : Round} → Indexed 0 jobs → Reach pool limit size Answer r r' → Inv r → Inv r'
  Reach-Inv x here inv = inv
  Reach-Inv x (next reach st) inv = Step-Inv x st (Reach-Inv x reach inv)

  -- In every state of a round of jobs numbered from 0, with a worker and a job at least and a
  -- positive attempt limit: each job is in one place at most (queued, in a worker's hands, or
  -- done), a job in the queue or in hand has its own range and fewer attempts than the limit, each
  -- result is an answer for its job's range, `remaining` counts the results that are missing or not
  -- counted yet, the channel has room for the jobs in hand, and while the round is not cancelled and
  -- no worker is about to cancel it, no job is lost and `active` counts the workers that have not
  -- returned.
  pub round-Inv :
      (providers : ℕ) (r : Round)
      → 1 ≤ providers
      → 1 ≤ size
      → 1 ≤ limit
      → Indexed 0 jobs
      → Reach pool limit size Answer (start providers) r
      → Inv r
  round-Inv providers r p n l x reach = Reach-Inv x reach (Inv-start providers p n l x)
