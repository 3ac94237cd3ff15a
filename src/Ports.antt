-- ===== src/Ports.antt =====
-- ports.go, seen from the indexer: the pool, the storage and the dispatcher are interfaces, and any
-- implementation may stand behind them. What a call of an interface returns is a function of all the
-- calls made before it, so that an implementation may keep any state and change its mind at any time.
-- `F` is float64.
pub mod Storage
use go_block_walk.Prelude.{ℕ, Bool, List, Option, Text}
use go_block_walk.Prelude.Int.{ℤ}
use go_block_walk.Errors.{GoError, Result}
use go_block_walk.Dispatcher.{Log}

-- What the program reads of a `types.Header`: its timestamp, and what `Hash()` returns.
pub record Header : Type 0 where
  pub time : ℕ
  pub hash : ℕ

-- A call of an interface with what it returned.
pub data Call (F : Type 0) : Type 0 where
  got_provider : Bool → Call F
  got_last_block : Result ℕ → Call F
  stored_last_block : ℕ → Result (Unit {0}) → Call F
  got_block_number : Result ℕ → Call F
  got_max_log_block_range : ℤ → Call F
  got_header : ℕ → Result Header → Call F
  got_block_logs : ℕ → Result (List Log) → Call F
  got_range_logs : ℕ → ℕ → Result (List Log) → Call F
  got_parallel_plan : ℤ × ℤ → Call F
  got_parallel_logs : ℕ → ℕ → Result (List Log) → Call F
  dispatched : Log → ℕ → Result (Unit {0}) → Call F
  got_scores : List (Text × F) → Call F
  stored_score : Text → F → F → Result (Unit {0}) → Call F
  persisted_quota : Result (Unit {0}) → Call F
  waited_for_restart : Bool → Call F
  invoked_on_exhausted : GoError → Call F

-- The implementations. `got_provider` says whether `GetProvider` returned one; `waited_for_restart`
-- whether the delay ended before the indexer was stopped; `zero` is the float 0.
pub record Env (F : Type 0) : Type 0 where
  pub zero : F
  pub provider : List (Call F) → Bool
  pub last_block : List (Call F) → Result ℕ
  pub store : List (Call F) → ℕ → Result (Unit {0})
  pub block_number : List (Call F) → Result ℕ
  pub max_log_block_range : List (Call F) → ℤ
  pub header : List (Call F) → ℕ → Result Header
  pub block_logs : List (Call F) → ℕ → Result (List Log)
  pub range_logs : List (Call F) → ℕ → ℕ → Result (List Log)
  -- whether the pool implements ParallelBackfiller
  pub is_parallel : Bool
  pub parallel_plan : List (Call F) → ℤ × ℤ
  pub parallel_logs : List (Call F) → ℕ → ℕ → Result (List Log)
  -- the pool's RangeTooLargeClassifier, if it implements that
  pub classifier : Option (GoError → Bool)
  pub dispatch : List (Call F) → Log → ℕ → Result (Unit {0})
  -- whether the storage implements ScoreStorage and QuotaStorage
  pub keeps_scores : Bool
  pub scores : List (Call F) → List (Text × F)
  pub store_score : List (Call F) → Text → F → F → Result (Unit {0})
  pub keeps_quotas : Bool
  pub persist_quota : List (Call F) → Result (Unit {0})
  pub wait_for_restart : List (Call F) → Bool
