-- ===== src/Indexer/Sync.antt =====
-- indexer.go: detectReorgRewind and syncBlocks, one whole sync.
pub mod Reorg
pub mod Reset
pub mod Positions
pub mod Moves
pub mod Ended
pub mod Session
pub mod Kept
pub mod Success
mod Tests
use go_block_walk.Prelude.{
  ℕ, ◌+◌, ◌-◌, ◌%◌, Bool, ◌&&◌, ◌||◌, Option, none, some, ◌++◌, codes, ltb, leb, ◌==◌,
  if◌then◌else◌,
}
use go_block_walk.Prelude.Int.{ℤ, pos, pos_part, ltb_ℤ, leb_ℤ}
use go_block_walk.Prelude.Strings.{decimal}
use go_block_walk.Errors.{GoError, sentinel, provider_pool_exhausted, wrap_then}
use go_block_walk.Ports.{
  Header, Env, got_provider, got_block_number, waited_for_restart, invoked_on_exhausted,
}
use go_block_walk.Hashes.{prune_hashes_above}
use go_block_walk.Exhaustion.{observe, consecutive}
use go_block_walk.Indexer.Actions.{
  Exec, pure, gets, ask, must, set_window, set_exhaustion, prefixed, ◌>>=◌, ◌>>◌,
}
use go_block_walk.Indexer.{
  IndexerConfig, u64, to_u64, header_by_number, max_log_block_range, get_last_block,
  store_last_block, sync_blocks_sequential,
}
use go_block_walk.Indexer.Batched.{sync_blocks_batched}

module _ {F : Type 0} (cfg : IndexerConfig) (env : Env F) where
  prune_window : ℕ → Exec F (Unit {0})
  prune_window b = do w ← gets (λ s. s.window); set_window (prune_hashes_above b w)

  -- The block that a rewind from `last` goes back to.
  pub rewind_target : ℕ → ℕ
  rewind_target last =
      let candidate = last - to_u64 cfg.reorg_depth in
      if ltb (to_u64 cfg.reorg_depth) last && ltb cfg.start_block candidate
      then candidate
      else cfg.start_block

  compare_hash : ℕ → ℕ → Header → Exec F ℕ
  unfolding prune_window
  compare_hash last want header = if header.hash == want then pure last else do
    r ← store_last_block cfg env (rewind_target last)
    must (codes "failed to persist rewound last block after reorg: ") r
    prune_window (rewind_target last)
    pure (rewind_target last)

  check_hash : ℕ → Option ℕ → Exec F ℕ
  unfolding compare_hash
  check_hash last none = pure last
  check_hash last (some want) = do
    r ← header_by_number cfg env last
    header ← must (codes "failed to verify chain tip for reorg check: ") r
    compare_hash last want header

  pub detect_reorg_rewind : ℕ → Exec F ℕ
  unfolding check_hash
  detect_reorg_rewind last =
      if leb_ℤ cfg.reorg_depth (pos 0) || last == 0
      then pure last
      else do tracked ← gets (λ s. s.window.recent_hashes last); check_hash last tracked

  -- err := fmt.Errorf("%w: no provider available for %d consecutive sync attempts", …)
  exhausted_error : ℤ → GoError
  exhausted_error n = wrap_then (sentinel provider_pool_exhausted) (
      codes ": no provider available for "
      ++ (decimal (pos_part n) ++ codes " consecutive sync attempts"))

  -- The select waits for the delay or for the indexer to be stopped.
  on_exhaustion : Exec F (Unit {0})
  unfolding exhausted_error
  on_exhaustion = do
    n ← gets (λ s. consecutive s.exhaustion)
    waited ← ask env.wait_for_restart waited_for_restart
    (if waited then (do ask (λ _. tt) (λ _. invoked_on_exhausted (exhausted_error n))) else pure tt)

  observe_pool : Exec F Bool
  observe_pool = do
    available ← ask env.provider got_provider
    t ← gets (λ s. s.exhaustion)
    let answer = observe t available
    set_exhaustion answer.1
    pure answer.0

  -- Nothing persisted yet: StartBlock - 1 counts as processed.
  pub first_position : ℕ → ℕ
  first_position last = if last == 0 && ltb 0 cfg.start_block then cfg.start_block - 1 else last

  -- if currentBlock < lastBlock: the chain was reset
  pub reset_if_behind : ℕ → ℕ → Exec F ℕ
  unfolding prune_window
  reset_if_behind last current =
      if ltb current last
      then (do
        r ← store_last_block cfg env cfg.start_block
        must (codes "failed to reset last block after chain reset: ") r
        prune_window cfg.start_block
        pure cfg.start_block)
      else pure last

  -- `rounds` bounds the rounds of the loop.
  pub sync_range : ℕ → ℕ → ℕ → Exec F (Unit {0})
  sync_range rounds start current = do
    limit ← max_log_block_range cfg env
    (if ltb_ℤ (pos 1) limit
        then (do
          -- for the log line
          max_log_block_range cfg env
          sync_blocks_batched cfg env rounds start current)
        else sync_blocks_sequential cfg env rounds start current)

  -- startBlock := lastBlock + 1; if startBlock == 0 { startBlock = 1 }
  pub sync_from : ℕ → ℕ → ℕ → Exec F (Unit {0})
  unfolding sync_range
  sync_from rounds last current =
      let next = (last + 1) % u64 in
      if leb current last
      then pure tt
      else sync_range rounds (if next == 0 then 1 else next) current

  sync_available : ℕ → Exec F (Unit {0})
  unfolding sync_from
  sync_available rounds = do
    r ← get_last_block cfg env
    persisted ← must (codes "failed to get last block: ") r
    last ← prefixed (codes "reorg check failed: ") (detect_reorg_rewind (first_position persisted))
    r' ← ask env.block_number got_block_number
    current ← must (codes "failed to get latest block: ") r'
    position ← reset_if_behind last current
    sync_from rounds position current

  pub sync_blocks : ℕ → Exec F (Unit {0})
  unfolding observe_pool on_exhaustion sync_available
  sync_blocks rounds = do
    exhausted ← observe_pool
    (if exhausted then on_exhaustion else sync_available rounds)
