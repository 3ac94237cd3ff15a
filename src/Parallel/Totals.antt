-- ===== src/Parallel/Totals.antt =====
-- Counting over the workers of a round, its queue and its results (pool.go).
use go_block_walk.Prelude.{
  ℕ, zero, suc, ◌+◌, ◌≤◌, ◌<◌, ◌≡◌, Option, none, some, List, [], ◌∷◌, ◌++◌, All, arith, ◌==◌,
  if◌then◌else◌,
}
use go_block_walk.Dispatcher.{Log}
use go_block_walk.Pool.{ParallelLogJob}
use go_block_walk.Parallel.{Results, put, Worker, fetching, stored, requeueing, cancelling, gone}

abbrev pub total : (Worker → ℕ) → List Worker → ℕ
total f [] = 0
total f (w ∷ ws) = f w + total f ws

-- One worker replaced.
pub total-replace :
    (f : Worker → ℕ) (before after : List Worker) (w w' : Worker)
    → total f (before ++ w' ∷ after) + f w ≡ total f (before ++ w ∷ after) + f w'
total-replace f [] after w w' = omega arith
total-replace f (b ∷ before) after w w' = omega (arith, total-replace f before after w w')

pub total-ge :
    (f : Worker → ℕ) (before after : List Worker) (w : Worker) → f w ≤ total f (before ++ w ∷ after)
total-ge f [] after w = omega arith
total-ge f (b ∷ before) after w = omega (arith, total-ge f before after w)

pub All-replace :
    (P : Worker → Type 0) (before after : List Worker) (w w' : Worker)
    → All P (before ++ w ∷ after)
    → P w'
    → All P (before ++ w' ∷ after)
All-replace P [] after w w' h p = (p, h.1)
All-replace P (b ∷ before) after w w' h p = (h.0, All-replace P before after w w' h.1 p)

pub All-at :
    (P : Worker → Type 0) (before after : List Worker) (w : Worker)
    → All P (before ++ w ∷ after)
    → P w
All-at P [] after w h = h.0
All-at P (b ∷ before) after w h = All-at P before after w h.1

-- A worker that `active` is to count: it has not returned, and is not about to.
abbrev pub live : Worker → ℕ
live cancelling = 0
live gone = 0
live _ = 1

-- A worker with a job in hand.
abbrev pub holds : Worker → ℕ
holds (fetching job) = 1
holds (requeueing job e) = 1
holds _ = 0

abbrev pub one_at : ℕ → ParallelLogJob → ℕ
one_at i job = if job.index == i then 1 else 0

abbrev pub holds_at : ℕ → Worker → ℕ
holds_at i (fetching job) = one_at i job
holds_at i (requeueing job e) = one_at i job
holds_at i _ = 0

-- A worker that has stored a result and not counted it.
abbrev pub uncounted : Worker → ℕ
uncounted stored = 1
uncounted _ = 0

-- A worker about to cancel the round.
abbrev pub stopping : Worker → ℕ
stopping cancelling = 1
stopping _ = 0

abbrev pub occurs : ℕ → List ParallelLogJob → ℕ
occurs i [] = 0
occurs i (job ∷ jobs) = one_at i job + occurs i jobs

pub occurs-append_one :
    (i : ℕ) (jobs : List ParallelLogJob) (job : ParallelLogJob)
    → occurs i (jobs ++ job ∷ []) ≡ occurs i jobs + one_at i job
occurs-append_one i [] job = omega arith
occurs-append_one i (j ∷ jobs) job = omega (arith, occurs-append_one i jobs job)

abbrev pub has : Option (List Log) → ℕ
has none = 0
has (some logs) = 1

-- How many of the first `n` results are there.
abbrev pub filled : ℕ → Results → ℕ
filled zero results = 0
filled (suc n) results = has (results n) + filled n results

pub filled-put_above :
    (n i : ℕ) (results : Results) (logs : List Log)
    → n ≤ i
    → filled n (put results i logs) ≡ filled n results
filled-put_above zero i results logs h = omega arith
filled-put_above (suc n) i results logs h = ground (arith, filled-put_above n i results logs)

pub filled-put :
    (n i : ℕ) (results : Results) (logs : List Log)
    → i < n
    → results i ≡ none
    → filled n (put results i logs) ≡ suc (filled n results)
filled-put zero i results logs h e = absurd (omega arith)
filled-put (suc n) i results logs h e =
    ground (arith, filled-put n i results logs, filled-put_above n i results logs)

pub filled-none : (n : ℕ) → filled n (λ _. none) ≡ 0
filled-none zero = omega arith
filled-none (suc n) = omega (arith, filled-none n)

pub filled-le : (n : ℕ) (results : Results) → filled n results ≤ n
filled-le zero results = omega arith
filled-le (suc n) results = ground (arith, filled-le n results)

-- If all are there, each is.
pub filled_all : (n i : ℕ) (results : Results) → n ≤ filled n results → i < n → has (results i) ≡ 1
filled_all zero i results h l = absurd (omega arith)
filled_all (suc n) i results h l = ground (arith, filled_all n i results, filled-le n results)
