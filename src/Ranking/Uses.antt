-- ===== src/Ranking/Uses.antt =====
-- The uses of a pool (pool.go), one after the other. `Fair` is what is known of the methods of its
-- providers, `Charge` what of the charges of a parallel fetch, and `Praised` what of the names that
-- are given to RecordSuccess from outside.
use go_block_walk.Prelude.{ℕ, Bool, List, In, Text}
use go_block_walk.Prelude.Int.{ℤ}
use go_block_walk.Prelude.Float.{Float64}
use go_block_walk.Errors.{GoError}
use go_block_walk.Quota.{QuotaManager}
use go_block_walk.Provider.{Provider}
use go_block_walk.Ranking.{
  PoolState, Sort, get_provider, recalculate_scores, record_success_of, record_failure_of,
}
use go_block_walk.Ranking.Calls.{Sight, Method, through, through_unrecorded}
use go_block_walk.Parallel.Reports.{Report, round_pool}

module _ {F W : Type 0} (float : Float64 F) (sight : Sight W)
    (Fair : (A : Type 0) → Method F W A → Type 0) (Charge : (QuotaManager → QuotaManager) → Type 0)
    (Praised : Text → Type 0) where
  -- One use of the pool: a call of a method that records its outcome, a call of one that does
  -- not, RecordSuccess or RecordFailure called from outside, a recalculation of the scores, a look
  -- for a provider, or a parallel fetch with any reports of its workers; and the time between two
  -- uses.
  pub data Use (pool : PoolState F) (w : W) : PoolState F → W → Type 1 where
    calls :
        {A : Type 0} (zero : A) (charge : GoError → Bool) (method : Method F W A)
        → Fair A method
        → Use pool w
            (through float sight zero charge method pool w).1.0
            (through float sight zero charge method pool w).1.1
    calls_unrecorded :
        {A : Type 0} (zero : A) (method : Method F W A)
        → Fair A method
        → Use pool w
            (through_unrecorded float sight zero method pool w).1.0
            (through_unrecorded float sight zero method pool w).1.1
    succeeds :
        (name : Text)
        → Praised name
        → Use pool w (record_success_of float name (sight.clock w) pool) w
    fails : (name : Text) (e : GoError) → Use pool w (record_failure_of float name e pool) w
    recalculates :
        (sort : Sort (Provider F))
        → ((below : Provider F → Provider F → Bool) (ps : List (Provider F)) (q : Provider F)
            → In q (sort below ps)
            → In q ps)
        → Use pool w (recalculate_scores float sort pool) w
    looks : Use pool w (get_provider float (sight.states w) (sight.clock w) pool).1 w
    backfills :
        (charges : ℕ → QuotaManager → QuotaManager) (clock : ℕ → ℤ) (rs : List Report)
        → ((n : ℕ) → Charge (charges n))
        → (w' : W)
        → Use pool w (round_pool float (sight.states w) (sight.clock w) charges clock rs pool) w'
    passes : (w' : W) → Use pool w pool w'

  pub data Uses (pool : PoolState F) (w : W) : PoolState F → W → Type 1 where
    here : Uses pool w pool w
    next :
        {pool' pool'' : PoolState F} {w' w'' : W}
        → Uses pool w pool' w'
        → Use pool' w' pool'' w''
        → Uses pool w pool'' w''
