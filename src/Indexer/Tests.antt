-- ===== src/Indexer/Tests.antt =====
-- The block-by-block path on a small chain.
use go_block_walk.Prelude.{◌≢◌, ℕ, refl, [], ◌∷◌, arith}
use go_block_walk.Errors.{ok}
use go_block_walk.Ports.{dispatched, got_header, got_block_logs}
use go_block_walk.Indexer.Actions.{spinning, ◌>>=◌}
use go_block_walk.Indexer.{
  store_last_block, save_progress, persist_provider_state, dispatch_all, process_block,
  sync_one_block, sync_blocks_sequential,
}
use go_block_walk.Indexer.Demo.{demo_env, demo_config, demo_start, demo_log, demo_header}
use go_block_walk.Indexer.Handled.{Handled}
use go_block_walk.Indexer.Termination.{sequential-ends}
use go_block_walk.Indexer.Progress.{sequential-stored_after-Handled, sequential-done}

sequential-stored_after-Handled_example : Handled {F = ℕ} 5 (
    dispatched (demo_log 5) 105 (ok tt)
    ∷ got_block_logs 5 (ok (demo_log 5 ∷ []))
    ∷ got_header 5 (ok (demo_header 5))
    ∷ [])
unfolding sync_blocks_sequential sync_one_block save_progress store_last_block
    persist_provider_state process_block dispatch_all ◌>>=◌
sequential-stored_after-Handled_example =
    sequential-stored_after-Handled demo_config demo_env 3 5 5 demo_start _ [] 5 5 refl refl
      (omega arith) (omega arith)

sequential-done_example :
    Handled 6 (sync_blocks_sequential demo_config demo_env 3 5 6 demo_start).1.calls
unfolding sync_blocks_sequential sync_one_block save_progress store_last_block
    persist_provider_state process_block dispatch_all ◌>>=◌
sequential-done_example =
    sequential-done demo_config demo_env 3 5 6 demo_start 6 refl refl (omega arith) (omega arith)

sequential-ends_example :
    (sync_blocks_sequential demo_config demo_env 4 5 8 demo_start).0 ≢ spinning
sequential-ends_example =
    sequential-ends demo_config demo_env 4 5 8 demo_start (omega arith) (omega arith)
