-- ===== src/Lib.antt =====
-- go-block-walk: an indexer that walks a chain's blocks and hands their logs to listeners.
--
-- The program is one Go package. An `Indexer` (indexer.go) asks a `ProviderPool` for headers and logs,
-- hands each log to an `EventDispatcher` (dispatcher.go), and stores the last block it has processed
-- in a `ChainStorage`; the interfaces between them are in ports.go.
--
--   Prelude, Prelude/*   numbers, integers, lists and texts over the native numbers
--   Errors               errors.go: the sentinels, `fmt.Errorf` with `%w`, the two classifiers
--   Quota                provider.go: QuotaManager; config.go: QuotaConfig, CreditsConfig
--   Exhaustion           exhaustion.go: ExhaustionTracker
--   Nudge                nudge.go: NudgeSignal
--   Dispatcher           dispatcher.go: EventDispatcher
--   Ports                ports.go: the interfaces as the indexer sees them
--   Ports/Storage        ports.go: ChainStorage, ScoreStorage, QuotaStorage and Storage
--   Hashes               indexer.go: recordBlockHash and pruneHashesAbove
--   Indexer              indexer.go: processBlock, syncBlocksSequential and what they call
--   Indexer/Handled      what it means that the calls of a sync have handled a block
--   Indexer/Batched      indexer.go: syncBlocksBatched, applyBatchChunk
--   Indexer/Sync         indexer.go: detectReorgRewind and syncBlocks, alone and one sync after the other
--   Setup                indexer.go: NewIndexer and restoreProviderState
--   Lifecycle            indexer.go: Start, Stop and IsRunning
--   Lifecycle/Loop       indexer.go: Start, Stop and syncLoop, interleaved
--   Breaker              breaker.go: CircuitBreaker
--   Retry                retry.go: WithRetry and what it uses; ratelimit.go: RateLimiter
--   Memory               memorychain.go: MemoryChainStorage
--   Memory/Storage       memory.go: Memory as a Storage
--   Memory/Quotas        memoryquota.go: MemoryQuotaStorage
--   Memory/Scores        memoryscore.go: MemoryScoreStorage; memory.go: Memory
--   Provider             provider.go: Provider; config.go: ProviderConfig, RateLimitConfig
--   Pool                 pool.go: ParallelLogPlan, and the jobs of LogsByBlockRangeParallel
--   Parallel             pool.go: the workers of LogsByBlockRangeParallel and what the call returns
--   Parallel/Reports     pool.go: what the workers report of their providers, and its effect on the pool
--   Ranking              pool.go: Pool, its construction, its ranking and its methods
--   Ranking/Uses         pool.go: the uses of a pool, one after the other
--
-- A method of the indexer is an action on its state (Indexer/Actions), which keeps the calls made of
-- the interfaces, the newest first. What an interface answers is any function of the calls before it
-- (`Env`), so it may change from call to call. Block numbers are uint64, and their sums wrap at
-- 2 ^ 64 as in the source; an `int`, an instant and a duration are integers that do not overflow. The
-- two loops over blocks run for a given number of rounds, and a loop that has not ended by then is
-- told apart from both success and failure (`spinning`).
--
-- The life of an indexer is any number of syncs and restarts (Indexer/Sync/Session), over a storage
-- that gives back what it took; Memory is one. The pool is used in any order by calls of its methods
-- over any client, by calls of RecordSuccess and RecordFailure, by recalculations, and by parallel
-- fetches.
--
-- The rounds that are enough stand in the results on termination. An attempt of WithRetry acts on any
-- world `W`; the packages rate and gobreaker, the sleep and float64 are arguments.
--
-- The state of Pool is in two records: what sizing reads (Pool) and the rest (Ranking). The methods of
-- the pool are over a provider's methods (Ranking/Methods over Provider/Calls), and these over the
-- client's calls. A parallel fetch is a relation between states, one step for each access of what its
-- workers share; the order of the steps, what the providers answer and when the caller's context
-- ends are left open. A theorem that needs a law of float64, of sort.Slice or of a package names it.
--
-- Not modelled: the ticker of the pool's update loop (its body is), the options of NewIndexer, which set
-- a logger and a callback, and the client of go-ethereum (ethclient.go).
--
-- Logging and locking are left out: each method that takes a lock is one step.
mod Prelude
pub mod Errors
pub mod Quota
pub mod Exhaustion
pub mod Nudge
pub mod Dispatcher
pub mod Ports
pub mod Hashes
pub mod Memory
pub mod Breaker
pub mod Retry
pub mod Indexer
pub mod Lifecycle
pub mod Provider
pub mod Pool
pub mod Parallel
pub mod Ranking
pub mod Setup
