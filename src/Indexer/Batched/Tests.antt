-- ===== src/Indexer/Batched/Tests.antt =====
-- The batched path on a small chain.
use go_block_walk.Prelude.{◌≢◌, ℕ, refl, [], ◌∷◌, arith}
use go_block_walk.Errors.{ok}
use go_block_walk.Prelude.Int.{pos}
use go_block_walk.Ports.{dispatched, got_header, got_range_logs, got_max_log_block_range}
use go_block_walk.Indexer.Actions.{spinning, ◌>>=◌}
use go_block_walk.Indexer.{
  store_last_block, save_progress, persist_provider_state, max_log_block_range, header_by_number,
  dispatch_log, record_hash,
}
use go_block_walk.Indexer.Batched.{
  dispatch_logs, apply_batch_chunk, record_chunk_end, parallel_round, single_round, sync_one_chunk,
  sync_chunks, sync_blocks_batched,
}
use go_block_walk.Indexer.Demo.{demo_env, demo_config, demo_start, demo_log, demo_header}
use go_block_walk.Indexer.Handled.{Handled}
use go_block_walk.Indexer.Batched.Spans.{IsSized}
use go_block_walk.Indexer.Batched.Termination.{batched-ends}
use go_block_walk.Indexer.Batched.Coverage.{batched-stored_after-Handled, batched-done}

batched-stored_after-Handled_example : Handled {F = ℕ} 6 (
    got_header 6 (ok (demo_header 6))
    ∷ dispatched (demo_log 5) 105 (ok tt)
    ∷ got_header 5 (ok (demo_header 5))
    ∷ got_range_logs 5 6 (ok (demo_log 5 ∷ []))
    ∷ got_max_log_block_range (pos 2)
    ∷ got_max_log_block_range (pos 2)
    ∷ [])
unfolding sync_blocks_batched sync_chunks sync_one_chunk parallel_round single_round
    apply_batch_chunk dispatch_logs record_chunk_end save_progress store_last_block
    persist_provider_state max_log_block_range header_by_number dispatch_log record_hash ◌>>=◌
batched-stored_after-Handled_example =
    batched-stored_after-Handled demo_config demo_env 2 5 6 demo_start _ [] 6 6 refl refl
      (omega arith) (omega arith)

batched-done_example : Handled 7 (sync_blocks_batched demo_config demo_env 3 5 8 demo_start).1.calls
unfolding sync_blocks_batched sync_chunks sync_one_chunk parallel_round single_round
    apply_batch_chunk dispatch_logs record_chunk_end save_progress store_last_block
    persist_provider_state max_log_block_range header_by_number dispatch_log record_hash ◌>>=◌
batched-done_example =
    batched-done demo_config demo_env 3 5 8 demo_start 7 refl refl (omega arith) (omega arith)

demo_env-IsSized : IsSized {F = ℕ} demo_config demo_env 8
demo_env-IsSized = record {
  limits = λ t. omega arith;
  plans = λ t. record { providers = omega arith; chunk = omega arith; span = omega arith };
}

batched-ends_example : (sync_blocks_batched demo_config demo_env 30 5 8 demo_start).0 ≢ spinning
batched-ends_example =
    batched-ends demo_config demo_env 30 4 5 8 demo_start demo_env-IsSized (omega arith)
      (omega arith) (omega arith)
