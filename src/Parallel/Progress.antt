-- ===== src/Parallel/Progress.antt =====
-- A round never gets stuck (pool.go): until every worker has returned, some worker can take a step.
use go_block_walk.Prelude.{
  ℕ, zero, suc, ◌+◌, ◌-◌, ltb, ◌≡◌, refl, ◌⊎◌, inl, inr, Bool, true, false, Bool-cases, List, [],
  ◌∷◌, ◌++◌, All, arith, length, ap,
}
use go_block_walk.Errors.{plain}
use go_block_walk.Dispatcher.{Log}
use go_block_walk.Pool.{Pool, ParallelLogJob, range_too_large}
use go_block_walk.Parallel.{
  Shared, Worker, idle, fetching, stored, requeueing, checking, cancelling, gone, Act, quits, takes,
  too_large, gives_up, fails, sends, stays, goes_on, completes, cancels, Round, Step, acts,
}
use go_block_walk.Parallel.Totals.{total, total-ge, live, holds, uncounted, stopping, filled-le}
use go_block_walk.Parallel.Inv.{Inv, size}

-- Every worker has returned.
abbrev pub Finished : Round → Type 0
Finished r = All (λ w. w ≡ gone) r.workers

-- A worker that is not at the select, and has not returned.
abbrev Busy : Worker → Type 0
Busy idle = ⊥
Busy gone = ⊥
Busy _ = Unit

-- Where the workers of a list stand: one is busy, one is idle and none busy, or all have returned.
data Standing (ws : List Worker) : Type 0 where
  busy : (before after : List Worker) (w : Worker) → ws ≡ before ++ w ∷ after → Busy w → Standing ws
  waiting :
      (before after : List Worker)
      → ws ≡ before ++ idle ∷ after
      → total holds ws ≡ 0
      → total uncounted ws ≡ 0
      → total stopping ws ≡ 0
      → Standing ws
  returned : All (λ w. w ≡ gone) ws → total live ws ≡ 0 → total stopping ws ≡ 0 → Standing ws

Standing-gone : (ws : List Worker) → Standing ws → Standing (gone ∷ ws)
Standing-gone ws (busy before after w e b) = busy (gone ∷ before) after w (ap (λ l. gone ∷ l) e) b
Standing-gone ws (waiting before after e h u s) =
    waiting (gone ∷ before) after (ap (λ l. gone ∷ l) e) (omega arith) (omega arith) (omega arith)
Standing-gone ws (returned a l s) = returned (refl, a) (omega arith) (omega arith)

pub total_gone :
    (f : Worker → ℕ) (ws : List Worker) → f gone ≡ 0 → All (λ w. w ≡ gone) ws → total f ws ≡ 0
total_gone f [] h a = omega arith
total_gone f (w ∷ ws) h a = omega (arith, total_gone f ws h a.1, ap f a.0)

Standing-idle : (ws : List Worker) → Standing ws → Standing (idle ∷ ws)
Standing-idle ws (busy before after w e b) = busy (idle ∷ before) after w (ap (λ l. idle ∷ l) e) b
Standing-idle ws (waiting before after e h u s) =
    waiting [] ws refl (omega arith) (omega arith) (omega arith)
Standing-idle ws (returned a l s) =
    waiting [] ws refl (omega (arith, total_gone holds ws refl a))
      (omega (arith, total_gone uncounted ws refl a)) (omega arith)

stand : (ws : List Worker) → Standing ws
stand [] = returned tt (omega arith) (omega arith)
stand (idle ∷ ws) = Standing-idle ws (stand ws)
stand (gone ∷ ws) = Standing-gone ws (stand ws)
stand (fetching job ∷ ws) = busy [] ws (fetching job) refl tt
stand (stored ∷ ws) = busy [] ws stored refl tt
stand (requeueing job e ∷ ws) = busy [] ws (requeueing job e) refl tt
stand (checking e ∷ ws) = busy [] ws (checking e) refl tt
stand (cancelling ∷ ws) = busy [] ws cancelling refl tt

module _ (pool : Pool) (limit : ℕ) (Answer : ℕ → ℕ → List Log → Type 0)
    (jobs : List ParallelLogJob) where
  abbrev pub Moves : Round → Type 0
  Moves r = (r' : Round) × Step pool limit (size pool limit Answer jobs) Answer r r'

  move :
      {r : Round} {s' : Shared} {w' : Worker} (before after : List Worker) (w : Worker)
      → r.workers ≡ before ++ w ∷ after
      → Act pool limit (size pool limit Answer jobs) Answer r.shared w s' w'
      → Moves r
  move {s'} {w'} before after w e a =
      (record { shared = s'; workers = before ++ w' ∷ after }, acts before after w w' e refl a)

  -- Any error will do: a call of FilterLogs returns.
  fetch_Moves :
      {r : Round} (before after : List Worker) (job : ParallelLogJob)
      → r.workers ≡ before ++ fetching job ∷ after
      → Moves r
  fetch_Moves before after job e = elim (Bool-cases (range_too_large pool (plain []))) [
    | inl large ↦ move before after (fetching job) e (too_large (plain []) large)
    | inr small ↦ elim (Bool-cases (ltb (job.attempts + 1) limit)) [
      | inl more ↦ move before after (fetching job) e (fails (plain []) small (ground arith))
      | inr spent ↦ move before after (fetching job) e (gives_up (plain []) small (ground arith))
    ]
  ]

  stored_Moves :
      {r : Round} (before after : List Worker) (m : ℕ)
      → r.workers ≡ before ++ stored ∷ after
      → r.shared.remaining ≡ suc m
      → Moves r
  stored_Moves before after zero e q = move before after stored e (completes q)
  stored_Moves before after (suc m) e q = move before after stored e (goes_on m q)

  Busy-Moves :
      {r : Round} (before after : List Worker) (w : Worker)
      → Inv pool limit Answer jobs r
      → r.workers ≡ before ++ w ∷ after
      → Busy w
      → Moves r
  Busy-Moves before after (fetching job) inv e b = fetch_Moves before after job e
  Busy-Moves {r} before after stored inv e b =
      stored_Moves before after (r.shared.remaining - 1) e (
        omega (
          arith,
          inv.counts.counted,
          total-ge uncounted before after stored,
          ap (total uncounted) e,
          filled-le (size pool limit Answer jobs) r.shared.results,
        ))
  Busy-Moves {r} before after (requeueing job x) inv e b = move before after (requeueing job x) e (
      sends (
        omega (
          arith,
          inv.counts.room,
          total-ge holds before after (requeueing job x),
          ap (total holds) e,
        )))
  Busy-Moves before after (checking x) inv e b = move before after (checking x) e stays
  Busy-Moves before after cancelling inv e b = move before after cancelling e cancels
  Busy-Moves before after idle inv e b = absurd b
  Busy-Moves before after gone inv e b = absurd b

  idle_Moves :
      {r : Round} (before after : List Worker) (queue : List ParallelLogJob) (stopped : Bool)
      → Inv pool limit Answer jobs r
      → r.workers ≡ before ++ idle ∷ after
      → total holds r.workers ≡ 0
      → total uncounted r.workers ≡ 0
      → total stopping r.workers ≡ 0
      → r.shared.queue ≡ queue
      → r.shared.cancelled ≡ stopped
      → Moves r
  idle_Moves before after (job ∷ rest) stopped inv e h u s q c = move before after idle e (takes q)
  idle_Moves before after [] true inv e h u s q c = move before after idle e (quits c)
  idle_Moves {r} before after [] false inv e h u s q c =
      let k = inv.counts.kept c s in
      absurd (omega (arith, k, inv.counts.counted, ap (length {A = ParallelLogJob}) q))

  -- In a round of jobs numbered from 0, with a worker at least, as long as some worker has not
  -- returned, some worker can take a step.
  pub progress : {r : Round} → Inv pool limit Answer jobs r → Finished r ⊎ Moves r
  progress {r} inv = elim (stand r.workers) [
    | busy before after w e b ↦ inr (Busy-Moves before after w inv e b)
    | waiting before after e h u s ↦
        inr (idle_Moves before after r.shared.queue r.shared.cancelled inv e h u s refl refl)
    | returned a l s ↦ inl a
  ]
