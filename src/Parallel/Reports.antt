-- ===== src/Parallel/Reports.antt =====
-- pool.go: what the workers of a round report of their providers (RecordSuccess and RecordFailure in
-- LogsByBlockRangeParallel), and what that makes of the pool. Worker `i` has the i-th of the
-- available providers.
pub mod Acts
pub mod Adds
pub mod Bounds
pub mod Others
mod Tests
use go_block_walk.Prelude.{ℕ, zero, suc, Option, none, some, List, [], ◌∷◌, ◌++◌, Text, length, map}
use go_block_walk.Prelude.Int.{ℤ}
use go_block_walk.Prelude.Float.{Float64}
use go_block_walk.Errors.{GoError}
use go_block_walk.Dispatcher.{Log}
use go_block_walk.Breaker.{State}
use go_block_walk.Quota.{QuotaManager}
use go_block_walk.Provider.{Provider}
use go_block_walk.Pool.{Pool, ParallelLogJob}
use go_block_walk.Ranking.{
  PoolState, on_named, available_providers_snapshot, record_success_of, record_failure_of,
}
use go_block_walk.Parallel.{
  Shared, Worker, Act, answers, too_large, gives_up, fails, Round, Step, acts, interrupted, Reach,
  here, next,
}

-- A fetch that has ended: by which worker, for which job, and with which error.
pub record Report : Type 0 where
  pub worker : ℕ
  pub job : ℕ
  pub failure : Option GoError

abbrev reported : ℕ → ParallelLogJob → Option GoError → List Report
reported i job failure = record { worker = i; job = job.index; failure = failure } ∷ []

module _ (pool : Pool) (limit capacity : ℕ) (Answer : ℕ → ℕ → List Log → Type 0) where
  -- What worker `i` reports in a step.
  abbrev pub act_reports :
      {s s' : Shared} {w w' : Worker} → ℕ → Act pool limit capacity Answer s w s' w' → List Report
  act_reports i (answers {job} logs a) = reported i job none
  act_reports i (too_large {job} e b) = reported i job (some e)
  act_reports i (gives_up {job} e b l) = reported i job (some e)
  act_reports i (fails {job} e b l) = reported i job (some e)
  act_reports i _ = []

  abbrev pub step_reports : {r r' : Round} → Step pool limit capacity Answer r r' → List Report
  step_reports (acts before after w w' e e' a) = act_reports (length before) a
  step_reports (interrupted e n x) = []

  -- The reports of a run, the newest first.
  abbrev pub reports : {r r' : Round} → Reach pool limit capacity Answer r r' → List Report
  reports here = []
  reports (next reach st) = step_reports st ++ reports reach

-- The name of a worker's provider.
abbrev pub name_at : List Text → ℕ → Option Text
name_at [] i = none
name_at (name ∷ names) zero = some name
name_at (name ∷ names) (suc i) = name_at names i

abbrev charge_with : {F : Type 0} → (QuotaManager → QuotaManager) → Provider F → Provider F
charge_with charge p = record p { quota = charge p.quota }

module _ {F : Type 0} (float : Float64 F) where
  -- A fetch charges its provider's quota, and ends in a report at the instant `now`.
  unfoldable pub report_of :
      (QuotaManager → QuotaManager) → ℤ → Option Text → Option GoError → PoolState F → PoolState F
  report_of charge now none failure pool = pool
  report_of charge now (some name) none pool =
      record_success_of float name now
        (record pool { ordered_list = on_named name (charge_with charge) pool.ordered_list })
  report_of charge now (some name) (some e) pool =
      record_failure_of float name e
        (record pool { ordered_list = on_named name (charge_with charge) pool.ordered_list })

  -- The pool after the reports; the charge and the instant of each fetch are any.
  unfoldable pub reported_pool :
      (ℕ → QuotaManager → QuotaManager)
      → (ℕ → ℤ)
      → List Text
      → List Report
      → PoolState F
      → PoolState F
  unfolding report_of
  reported_pool charges clock names [] pool = pool
  reported_pool charges clock names (r ∷ earlier) pool =
      report_of (charges (length earlier)) (clock (length earlier)) (name_at names r.worker)
        r.failure (reported_pool charges clock names earlier pool)

  -- The snapshot of the available providers, and then the reports of their workers.
  abbrev pub round_pool :
      (Text → State)
      → ℤ
      → (ℕ → QuotaManager → QuotaManager)
      → (ℕ → ℤ)
      → List Report
      → PoolState F
      → PoolState F
  round_pool states now charges clock rs pool =
      let (available, ps) = available_providers_snapshot float states now pool.ordered_list in
      reported_pool charges clock (map (λ p. p.name) available) rs
        (record pool { ordered_list = ps })
