-- ===== src/Parallel/Places.antt =====
-- Where the jobs of a round are (pool.go): each in one place at most, with its own range and fewer
-- attempts than the limit; and each result is an answer for the range of its job.
use go_block_walk.Prelude.{
  ℕ, ◌+◌, ◌≤◌, ◌<◌, ◌≡◌, some, List, [], ◌∷◌, ◌++◌, All, In, arith, ◌==◌, subst, sym, Bool-cases,
  inl, inr, ap,
}
use go_block_walk.Dispatcher.{Log}
use go_block_walk.Pool.{Pool, ParallelLogJob}
use go_block_walk.Parallel.{
  Shared, Worker, fetching, requeueing, Act, quits, takes, answers, too_large, gives_up, fails,
  sends, abandons, stays, leaves, leaves_last, goes_on, completes, cancels, Round, Step, acts,
  interrupted,
}
use go_block_walk.Parallel.Totals.{
  total, total-replace, All-replace, All-at, holds_at, occurs, occurs-append_one, has,
}

module _ (pool : Pool) (limit capacity : ℕ) (Answer : ℕ → ℕ → List Log → Type 0)
    (jobs : List ParallelLogJob) where
  -- A job of the round, tried fewer times than the limit.
  abbrev pub IsJob : ParallelLogJob → Type 0
  IsJob job = In (record job { attempts = 0 }) jobs × (job.attempts < limit)

  abbrev pub HasJob : Worker → Type 0
  HasJob (fetching job) = IsJob job
  HasJob (requeueing job e) = IsJob job
  HasJob _ = Unit

  pub record Answered (i : ℕ) (logs : List Log) : Type 0 where
    pub job : ParallelLogJob
    pub listed : In job jobs
    pub at : job.index ≡ i
    pub answer : Answer job.from job.to logs

  -- How often job `i` is in the queue, in a worker's hands, or done.
  abbrev pub places : ℕ → Shared → List Worker → ℕ
  places i s ws = occurs i s.queue + total (holds_at i) ws + has (s.results i)

  pub record Places (s : Shared) (ws : List Worker) : Type 0 where
    pub unique : (i : ℕ) → places i s ws ≤ 1
    pub queued : All IsJob s.queue
    pub held : All HasJob ws
    pub results : (i : ℕ) (logs : List Log) → s.results i ≡ some logs → Answered i logs

  -- What a worker's step does to the places of a job, that worker's hands and the shared state taken
  -- together.
  Act-places :
      {s s' : Shared} {w w' : Worker} (i : ℕ)
      → Act pool limit capacity Answer s w s' w'
      → occurs i s'.queue + holds_at i w' + has (s'.results i)
        ≤ occurs i s.queue + holds_at i w + has (s.results i)
  Act-places i (quits c) = omega arith
  Act-places i (takes e) = rw e (omega arith)
  Act-places i (answers logs a) = ground arith
  Act-places i (too_large e h) = omega arith
  Act-places i (gives_up e h l) = omega arith
  Act-places i (fails e h l) = ground arith
  Act-places {s} i (sends {job} l) = omega (arith, occurs-append_one i s.queue job)
  Act-places i (abandons c) = omega arith
  Act-places i stays = omega arith
  Act-places i (leaves n e) = omega arith
  Act-places i (leaves_last e) = omega arith
  Act-places i (goes_on n e) = omega arith
  Act-places i (completes e) = omega arith
  Act-places i cancels = omega arith

  All-append_one :
      (js : List ParallelLogJob) (job : ParallelLogJob)
      → All IsJob js
      → IsJob job
      → All IsJob (js ++ job ∷ [])
  All-append_one [] job h j = (j, tt)
  All-append_one (x ∷ js) job h j = (h.0, All-append_one js job h.1 j)

  -- A worker's step keeps the jobs of the round as they are, but for the attempts.
  record Kept (s' : Shared) (w' : Worker) : Type 0 where
    queued : All IsJob s'.queue
    held : HasJob w'
    results : (i : ℕ) (logs : List Log) → s'.results i ≡ some logs → Answered i logs

  Act-Kept :
      {s s' : Shared} {w w' : Worker}
      → Act pool limit capacity Answer s w s' w'
      → All IsJob s.queue
      → HasJob w
      → ((i : ℕ) (logs : List Log) → s.results i ≡ some logs → Answered i logs)
      → Kept s' w'
  Act-Kept (quits c) q h r = record { queued = q; held = tt; results = r }
  Act-Kept (takes e) q h r =
      let q' = subst (All IsJob) e q in record { queued = q'.1; held = q'.0; results = r }
  Act-Kept {s} (answers {job} logs a) q h r = record {
    queued = q;
    held = tt;
    results = λ i given e. elim (Bool-cases (i == job.index)) [
      | inl same ↦
          let q : logs ≡ given = ground arith in
          record {
            job = record job { attempts = 0 };
            listed = h.0;
            at = ground arith;
            answer = subst (Answer job.from job.to) q a;
          }
      | inr other ↦ r i given (ground arith)
    ];
  }
  Act-Kept (too_large e b) q h r = record { queued = q; held = tt; results = r }
  Act-Kept (gives_up e b l) q h r = record { queued = q; held = tt; results = r }
  Act-Kept (fails e b l) q h r = record { queued = q; held = (h.0, l); results = r }
  Act-Kept {s} (sends {job} l) q h r = record {
    queued = All-append_one s.queue job q h;
    held = tt;
    results = r;
  }
  Act-Kept (abandons c) q h r = record { queued = q; held = tt; results = r }
  Act-Kept stays q h r = record { queued = q; held = tt; results = r }
  Act-Kept (leaves n e) q h r = record { queued = q; held = tt; results = r }
  Act-Kept (leaves_last e) q h r = record { queued = q; held = tt; results = r }
  Act-Kept (goes_on n e) q h r = record { queued = q; held = tt; results = r }
  Act-Kept (completes e) q h r = record { queued = q; held = tt; results = r }
  Act-Kept cancels q h r = record { queued = q; held = tt; results = r }

  -- Every step of a round keeps its jobs in place.
  pub Step-Places :
      {r r' : Round}
      → Step pool limit capacity Answer r r'
      → Places r.shared r.workers
      → Places r'.shared r'.workers
  Step-Places {r} {r'} (acts before after w w' e e' a) p =
      let held = subst (All HasJob) e p.held in
      let k = Act-Kept a p.queued (All-at HasJob before after w held) p.results in
      record {
        unique = λ i. omega (
          arith,
          p.unique i,
          Act-places i a,
          total-replace (holds_at i) before after w w',
          ap (total (holds_at i)) e,
          ap (total (holds_at i)) e',
        );
        queued = k.queued;
        held = subst (All HasJob) (sym e') (All-replace HasJob before after w w' held k.held);
        results = k.results;
      }
  Step-Places (interrupted x n e) p =
      rw e (record { unique = p.unique; queued = p.queued; held = p.held; results = p.results })
