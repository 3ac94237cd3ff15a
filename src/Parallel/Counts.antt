-- ===== src/Parallel/Counts.antt =====
-- The counters of a round (pool.go): `remaining` and `active` count what they are meant to count, the
-- channel has room for every job that is given back, and the round is cancelled only for a reason.
use go_block_walk.Prelude.{
  ℕ, ◌+◌, ◌≤◌, ◌<◌, ◌≡◌, ◌≢◌, ◌⊎◌, inr, true, false, Option, none, some, List, [], ◌∷◌, ◌++◌, arith,
  length, length-append, ap,
}
use go_block_walk.Errors.{GoError}
use go_block_walk.Dispatcher.{Log}
use go_block_walk.Pool.{Pool, ParallelLogJob}
use go_block_walk.Parallel.{
  Shared, Worker, fetching, Act, quits, takes, answers, too_large, gives_up, fails, sends, abandons,
  stays, leaves, leaves_last, goes_on, completes, cancels, Round, Step, acts, interrupted,
  first_error, every_provider_error,
}
use go_block_walk.Parallel.Totals.{
  total, total-replace, total-ge, live, holds, uncounted, stopping, filled, filled-put,
}

-- Why a round may be over.
abbrev pub Decided : Shared → Type 0
Decided s = (s.remaining ≡ 0) ⊎ (s.first_err ≢ none)

abbrev pub Over : Shared → Type 0
Over s = Decided s ⊎ (s.parent_err ≢ none)

-- The sums that the counters are compared with.
pub record Sums : Type 0 where
  pub live_workers : ℕ
  pub held_jobs : ℕ
  pub uncounted_results : ℕ
  pub stopping_workers : ℕ

abbrev pub sums : List Worker → Sums
sums ws = record {
  live_workers = total live ws;
  held_jobs = total holds ws;
  uncounted_results = total uncounted ws;
  stopping_workers = total stopping ws;
}

-- For a round of `n` jobs.
pub record Counts (n : ℕ) (s : Shared) (t : Sums) : Type 0 where
  pub room : length s.queue + t.held_jobs + filled n s.results ≤ n
  pub counted : filled n s.results + s.remaining ≡ n + t.uncounted_results
  pub manned : t.live_workers ≤ s.active
  -- while the round is not cancelled and no worker is about to cancel it, no job is lost and the
  -- workers that have not returned are counted
  pub kept :
      s.cancelled ≡ false
      → t.stopping_workers ≡ 0
      → (n ≤ length s.queue + t.held_jobs + filled n s.results)
        × (s.active ≡ t.live_workers)
        × (1 ≤ s.active)
        × (1 ≤ s.remaining)
  pub stopped : 1 ≤ t.stopping_workers → Decided s
  pub over : s.cancelled ≡ true → Over s

module _ (pool : Pool) (limit n : ℕ) (Answer : ℕ → ℕ → List Log → Type 0) where
  -- What a step needs of the job in hand: its result is not there yet.
  abbrev pub Fresh : Shared → Worker → Type 0
  Fresh s (fetching job) = (s.results job.index ≡ none) × (job.index < n)
  Fresh s _ = Unit

  -- The sums after one worker is replaced by another.
  abbrev Replaced : Worker → Worker → Sums → Sums → Type 0
  Replaced w w' t t' =
      (t'.live_workers + live w ≡ t.live_workers + live w')
      × (t'.held_jobs + holds w ≡ t.held_jobs + holds w')
      × (t'.uncounted_results + uncounted w ≡ t.uncounted_results + uncounted w')
      × (t'.stopping_workers + stopping w ≡ t.stopping_workers + stopping w')
      × (uncounted w ≤ t.uncounted_results)
      × (live w ≤ t.live_workers)

  first_error-ne-none : (o : Option GoError) (e : GoError) → first_error o e ≢ none
  first_error-ne-none none e = λ q. cc
  first_error-ne-none (some x) e = λ q. cc

  Act-Counts :
      {s s' : Shared} {w w' : Worker} (t t' : Sums)
      → Act pool limit n Answer s w s' w'
      → Fresh s w
      → Replaced w w' t t'
      → Counts n s t
      → Counts n s' t'
  Act-Counts t t' (quits c) f d h = ground arith
  Act-Counts t t' (takes e) f d h = ground (arith, ap (length {A = ParallelLogJob}) e)
  Act-Counts {s} t t' (answers {job} logs a) f d h =
      ground (arith, filled-put n job.index s.results logs)
  Act-Counts {s} t t' (too_large e b) f d h = ground (arith, first_error-ne-none s.first_err)
  Act-Counts {s} t t' (gives_up e b l) f d h = ground (arith, first_error-ne-none s.first_err)
  Act-Counts t t' (fails e b l) f d h = ground arith
  Act-Counts {s} t t' (sends {job} l) f d h = ground (arith, length-append s.queue (job ∷ []))
  Act-Counts t t' (abandons c) f d h = ground arith
  Act-Counts t t' stays f d h = ground arith
  Act-Counts t t' (leaves m e) f d h = ground arith
  Act-Counts {s} t t' (leaves_last {e = x} e) f d h =
      ground (arith, first_error-ne-none s.first_err (every_provider_error x))
  Act-Counts t t' (goes_on m e) f d h = ground arith
  Act-Counts t t' (completes e) f d h = ground arith
  Act-Counts t t' cancels f d h = ground arith

  -- Every step of a round keeps its counts, if it has jobs in hand only whose result is not there.
  pub Step-Counts :
      {r r' : Round}
      → Step pool limit n Answer r r'
      → ((before after : List Worker) (w : Worker)
          → r.workers ≡ before ++ w ∷ after
          → Fresh r.shared w)
      → Counts n r.shared (sums r.workers)
      → Counts n r'.shared (sums r'.workers)
  Step-Counts {r} {r'} (acts before after w w' e e' a) f h =
      Act-Counts (sums r.workers) (sums r'.workers) a (f before after w e)
        (rw (e, e')
          (
            total-replace live before after w w',
            total-replace holds before after w w',
            total-replace uncounted before after w w',
            total-replace stopping before after w w',
            total-ge uncounted before after w,
            total-ge live before after w,
          ))
        h
  Step-Counts {r} (interrupted x none_yet e) f h = rw e (record {
    room = h.room;
    counted = h.counted;
    manned = h.manned;
    kept = λ c. cc;
    stopped = h.stopped;
    over = λ c. inr (λ q. cc);
  })
