-- ===== src/Indexer.antt =====
-- indexer.go: the sync of an Indexer. A method is an action: it takes the indexer's state to an
-- outcome and the state after it, and the state holds the calls made of the interfaces since the
-- sync began, the newest first (ports.go). Logging is left out. Block numbers are uint64: sums
-- wrap.
pub mod Actions
pub mod Batched
pub mod Sync
pub mod Quiet
pub mod Post
pub mod Handled
pub mod Contexts
pub mod Sound
pub mod Sequential
pub mod Ends
pub mod Termination
pub mod Progress
pub mod Works
pub mod Success
pub mod Demo
mod Tests
use go_block_walk.Prelude.{
  ℕ, zero, suc, ◌+◌, ◌-◌, ◌*◌, ◌/◌, ◌%◌, ◌^◌, ◌≡◌, Bool, true, false, not, ◌&&◌, Option, none, some,
  List, [], ◌∷◌, ◌++◌, Text, codes, ltb, leb, ◌==◌, if◌then◌else◌,
}
use go_block_walk.Prelude.Int.{ℤ, pos, negsuc, pos_part, ltb_ℤ, leb_ℤ}
use go_block_walk.Prelude.Strings.{decimal}
use go_block_walk.Errors.{
  GoError, sentinel, wrap, provider_pool_exhausted, Result, ok, err, is_local_decode_error,
  is_range_too_large_error,
}
use go_block_walk.Dispatcher.{Log}
use go_block_walk.Ports.{
  Header, Call, Env, got_provider, got_last_block, stored_last_block, got_block_number,
  got_max_log_block_range, got_header, got_block_logs, got_range_logs, got_parallel_plan,
  got_parallel_logs, dispatched, got_scores, stored_score, persisted_quota, waited_for_restart,
  invoked_on_exhausted,
}
use go_block_walk.Hashes.{HashWindow, record_block_hash, prune_hashes_above}
use go_block_walk.Exhaustion.{observe, consecutive}
use Actions.{
  Indexer, Outcome, Exec, pure, fail, spin, attempt, ask, gets, set_window, must, ◌>>=◌, ◌>>◌,
}

-- What the sync reads of IndexerConfig.
pub record IndexerConfig : Type 0 where
  pub chain : Text
  pub start_block : ℕ
  pub block_interval : ℤ
  pub max_consecutive_provider_exhaustion : ℤ
  pub provider_exhaustion_restart_delay : ℤ
  pub debug_mode : Bool
  pub reorg_depth : ℤ

abbrev pub u64 : ℕ
u64 = 2 ^ 64

-- uint64(i) of an int
abbrev pub to_u64 : ℤ → ℕ
to_u64 (pos n) = n % u64
to_u64 (negsuc n) = u64 - 1 - n % u64

abbrev about_block : Text → ℕ → Text
about_block what b = what ++ decimal b ++ codes ": "

abbrev about_blocks : Text → ℕ → ℕ → Text
about_blocks what from to = what ++ decimal from ++ codes ".." ++ decimal to ++ codes ": "

module _ {F : Type 0} (cfg : IndexerConfig) (env : Env F) where
  -- The calls of the interfaces.
  pub header_by_number : ℕ → Exec F (Result Header)
  header_by_number b = ask (λ t. env.header t b) (got_header b)

  pub dispatch_log : Log → ℕ → Exec F (Result (Unit {0}))
  dispatch_log l time = ask (λ t. env.dispatch t l time) (dispatched l time)

  pub max_log_block_range : Exec F ℤ
  max_log_block_range = ask env.max_log_block_range got_max_log_block_range

  pub record_hash : ℕ → ℕ → Exec F (Unit {0})
  record_hash b hash = do
    w ← gets (λ s. s.window)
    set_window (record_block_hash cfg.reorg_depth b hash w)

  pub get_last_block : Exec F (Result ℕ)
  get_last_block = if cfg.debug_mode then pure (ok 0) else ask env.last_block got_last_block

  pub store_last_block : ℕ → Exec F (Result (Unit {0}))
  store_last_block b =
      if cfg.debug_mode then pure (ok tt) else ask (λ t. env.store t b) (stored_last_block b)

  -- for provider, score := range idx.pool.GetScores() { SetProviderScore(…, score, 0) }, whose errors
  -- are logged
  store_scores : List (Text × F) → Exec F (Unit {0})
  store_scores [] = pure tt
  store_scores ((provider, score) ∷ rest) = do
    ask (λ t. env.store_score t provider score env.zero) (stored_score provider score env.zero)
    store_scores rest

  persist_scores : Exec F (Unit {0})
  unfolding store_scores
  persist_scores = do scores ← ask env.scores got_scores; store_scores scores

  persist_quotas : Exec F (Unit {0})
  persist_quotas = do ask env.persist_quota persisted_quota; pure tt

  pub persist_provider_state : Exec F (Unit {0})
  persist_provider_state = do
    (if env.keeps_scores then persist_scores else pure tt)
    (if env.keeps_quotas then persist_quotas else pure tt)

  -- The end of a block's round and of a chunk's.
  pub save_progress : ℕ → Exec F (Unit {0})
  save_progress b = do
    r ← store_last_block b
    must (codes "failed to save last block: ") r
    persist_provider_state

  pub dispatch_all : ℕ → ℕ → List Log → Exec F (Unit {0})
  unfolding dispatch_log
  dispatch_all b time [] = pure tt
  dispatch_all b time (l ∷ ls) = do
    r ← dispatch_log l time
    must (about_block (codes "failed to dispatch log for block ") b) r
    dispatch_all b time ls

  pub process_block : ℕ → Exec F (Unit {0})
  unfolding header_by_number record_hash
  process_block b = do
    r ← header_by_number b
    header ← must (about_block (codes "failed to get header for block ") b) r
    record_hash b header.hash
    r' ← ask (λ t. env.block_logs t b) (got_block_logs b)
    logs ← must (about_block (codes "failed to get logs for block ") b) r'
    dispatch_all b header.time logs

  -- An error of `processBlock` that is a local decode error is logged, and the block is left behind.
  skip_or_fail : ℕ → Result (Unit {0}) → Exec F (Unit {0})
  skip_or_fail b (ok _) = pure tt
  skip_or_fail b (err e) =
      if is_local_decode_error (some e)
      then pure tt
      else fail (wrap (about_block (codes "failed to process block ") b) e)

  -- One round of the loop of `syncBlocksSequential`.
  pub sync_one_block : ℕ → Exec F (Unit {0})
  unfolding skip_or_fail
  sync_one_block b = do r ← attempt (process_block b); skip_or_fail b r; save_progress b

  -- `for blockNum := startBlock; blockNum <= currentBlock; blockNum++`, for at most the given rounds.
  pub sync_blocks_sequential : ℕ → ℕ → ℕ → Exec F (Unit {0})
  sync_blocks_sequential zero b current = if leb b current then spin else pure tt
  sync_blocks_sequential (suc rounds) b current =
      let round = (do sync_one_block b; sync_blocks_sequential rounds ((b + 1) % u64) current) in
      if leb b current then round else pure tt
