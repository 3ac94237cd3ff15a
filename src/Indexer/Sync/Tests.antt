-- ===== src/Indexer/Sync/Tests.antt =====
-- Rewinds, resets and whole syncs on a small chain.
use go_block_walk.Prelude.{
  In, ◌≢◌, ℕ, ◌+◌, ◌≤◌, inl, true, ◌≡◌, refl, some, none, [], ◌∷◌, arith, ◌==◌, if◌then◌else◌,
}
use go_block_walk.Prelude.Int.{pos}
use go_block_walk.Prelude.Strings.{text_eq}
use go_block_walk.Errors.{ok}
use go_block_walk.Ports.{
  Env, got_provider, got_last_block, got_block_number, got_max_log_block_range, got_block_logs,
  got_header, dispatched, stored_last_block,
}
use go_block_walk.Hashes.{prune_hashes_above}
use go_block_walk.Exhaustion.{observe}
use go_block_walk.Indexer.Actions.{Indexer, done, ◌>>=◌}
use go_block_walk.Indexer.Demo.{demo_log, demo_env, demo_config, demo_start, demo_header}
use go_block_walk.Indexer
use go_block_walk.Indexer.{
  IndexerConfig, store_last_block, save_progress, persist_provider_state, max_log_block_range,
  header_by_number, sync_blocks_sequential, sync_one_block, process_block, dispatch_all,
  dispatch_log, record_hash,
}
use go_block_walk.Indexer.Handled.{Handled}
use go_block_walk.Indexer.Success.{Serves}
use go_block_walk.Indexer.Batched.Spans.{IsSized}
use go_block_walk.Indexer.Sync.Success.{sync-catches_up}
use go_block_walk.Indexer.Sync.Positions.{first_block, last_stored}
use go_block_walk.Memory.{new_memory_chain_storage, get_last_block, set_last_block}
use go_block_walk.Memory.Scores.{Memory, new_memory}
use go_block_walk.Memory.Storage.{memory, memory_chain_storage, memory-KeepsPositions}
use go_block_walk.Ports.Storage.{ChainStorage}
use go_block_walk.Indexer.Sync.Kept.{kept, over, kept-Handled}
use go_block_walk.Indexer.Sync.Session.{
  created, synced, restarted, syncs-stored_after-Handled, syncs-done-Handled,
}
use go_block_walk.Indexer.Sync.{
  first_position, observe_pool, sync_available, sync_blocks, detect_reorg_rewind, reset_if_behind,
  sync_from, sync_range,
}
use go_block_walk.Indexer.Sync.Reorg.{IsTarget, Rewound, detect-mismatch}
use go_block_walk.Hashes.Window.{IsConsistent}
use go_block_walk.Indexer.Sync.Reset.{reset_sync, ahead_sync}

-- Block 9 is recorded with the given hash.
abbrev tracking : ℕ → Indexer ℕ
tracking hash = record demo_start {
  window = record { recent_hashes = λ b. if b == 9 then some hash else none; hash_order = 9 ∷ [] };
}

tracking-kept : (hash b : ℕ) → In b (9 ∷ []) → (tracking hash).window.recent_hashes b ≢ none
tracking-kept hash b (In.here e) = λ q. absurd (ground (arith, e, q))
tracking-kept hash b (In.there i) = elim i [ ]

tracking-IsConsistent : (hash : ℕ) → IsConsistent (tracking hash).window
tracking-IsConsistent hash = record {
  distinct = ((λ i. elim i [ ]), tt);
  tracks = record { listed = λ b n. In.here (ground (arith, n)); kept = tracking-kept hash };
}

detect-mismatch_example :
    let fetched : Indexer ℕ = record (tracking 1) {
      calls = got_header 9 (ok (demo_header 9)) ∷ [];
    } in
    (target : ℕ) × IsTarget demo_config demo_env 3 9 target
    × Rewound demo_config demo_env
        (ok tt)
        target
        fetched
        (detect_reorg_rewind demo_config demo_env 9 (tracking 1))
detect-mismatch_example =
    detect-mismatch demo_config demo_env 2 9 1 (tracking 1) (demo_header 9) refl (omega arith) refl
      (omega arith) (tracking-IsConsistent 1) refl refl (omega arith)

reset_sync_example :
    (reset_if_behind demo_config demo_env 20 8 >>= λ p. sync_from demo_config demo_env 9 p 8)
      demo_start
    ≡ sync_range demo_config demo_env 9 6 8 (record demo_start {
      calls = stored_last_block 5 (ok tt) ∷ [];
      window = prune_hashes_above 5 demo_start.window;
    })
reset_sync_example =
    reset_sync demo_config demo_env 9 20 8 demo_start (omega arith) (omega arith) (omega arith) refl
      refl

-- A storage that gives back what was stored, and no reorg detection.
abbrev keeping_env : Env ℕ
keeping_env = record demo_env {
  last_block = λ t. ok (last_stored t);
  max_log_block_range = λ _. pos 1;
}

abbrev plain_config : IndexerConfig
plain_config = record demo_config { reorg_depth = pos 0 }

high_enough : (n : ℕ) → ok 6 ≡ ok n → plain_config.start_block ≤ n + 1
high_enough n e = ground (arith, e)

syncs-stored_after-Handled_example : Handled {F = ℕ} 5 (
    dispatched (demo_log 6) 106 (ok tt)
    ∷ got_block_logs 6 (ok (demo_log 6 ∷ []))
    ∷ got_header 6 (ok (demo_header 6))
    ∷ stored_last_block 5 (ok tt)
    ∷ dispatched (demo_log 5) 105 (ok tt)
    ∷ got_block_logs 5 (ok (demo_log 5 ∷ []))
    ∷ got_header 5 (ok (demo_header 5))
    ∷ got_max_log_block_range (pos 1)
    ∷ got_block_number (ok 6)
    ∷ got_last_block (ok 0)
    ∷ got_provider true
    ∷ [])
unfolding sync_blocks observe_pool sync_available go_block_walk.Indexer.get_last_block
    detect_reorg_rewind first_position reset_if_behind sync_from sync_range sync_blocks_sequential
    sync_one_block process_block dispatch_all save_progress store_last_block persist_provider_state
    max_log_block_range header_by_number dispatch_log record_hash observe last_stored ◌>>=◌
syncs-stored_after-Handled_example =
    syncs-stored_after-Handled plain_config keeping_env refl (inl refl) (λ _. refl)
      (λ _. high_enough) demo_start _ _ [] 6 5 refl
      (restarted demo_start.window demo_start.exhaustion (synced 2 created)) refl (omega arith)
      (omega arith)

abbrev once_synced : Indexer ℕ
once_synced = (sync_blocks plain_config keeping_env 2 demo_start).1

syncs-done-Handled_example : Handled 6 (sync_blocks plain_config keeping_env 9 once_synced).1.calls
unfolding sync_blocks observe_pool sync_available go_block_walk.Indexer.get_last_block
    detect_reorg_rewind first_position reset_if_behind sync_from sync_range sync_blocks_sequential
    sync_one_block process_block dispatch_all save_progress store_last_block persist_provider_state
    max_log_block_range header_by_number dispatch_log record_hash observe last_stored ◌>>=◌
syncs-done-Handled_example =
    syncs-done-Handled plain_config keeping_env refl (inl refl) (λ _. refl) (λ _. high_enough) 9 6 6
      demo_start once_synced (λ _. refl) (λ _. refl) refl (synced 2 created) refl (omega arith)
      (omega arith)

ahead_sync_example :
    ((reset_if_behind demo_config demo_env (first_position demo_config demo_env 0) 2 >>= λ p.
    sync_from demo_config demo_env 9 p 2)
        demo_start
      ≡ (
        done tt,
        record demo_start {
          calls = stored_last_block 5 (ok tt) ∷ [];
          window = prune_hashes_above 5 demo_start.window;
        },
      ))
    × ((reset_if_behind demo_config demo_env (first_position demo_config demo_env 5) 8 >>= λ p.
            sync_from demo_config demo_env 9 p 8)
          demo_start
        ≡ sync_range demo_config demo_env 9 6 8 demo_start)
ahead_sync_example =
    ahead_sync demo_config demo_env 9 2 8 demo_start demo_start (omega arith) (omega arith)
      (omega arith) refl refl

-- Memory behind the indexer.
abbrev in_memory : ChainStorage (Memory ℕ)
in_memory = (memory (λ _ scores. scores) (pos 9)).chain_storage

abbrev in_memory_env : Env ℕ
in_memory_env = record demo_env { max_log_block_range = λ _. pos 1 }

abbrev synced_in_memory : Indexer ℕ
synced_in_memory =
    (sync_blocks plain_config (over in_memory new_memory plain_config.chain in_memory_env) 2
      demo_start).1

kept-Handled_example : Handled 6 synced_in_memory.calls
unfolding sync_blocks observe_pool sync_available go_block_walk.Indexer.get_last_block
    detect_reorg_rewind first_position reset_if_behind sync_from sync_range sync_blocks_sequential
    sync_one_block process_block dispatch_all save_progress store_last_block persist_provider_state
    max_log_block_range header_by_number dispatch_log record_hash observe kept over text_eq memory
    memory_chain_storage new_memory new_memory_chain_storage get_last_block set_last_block ◌>>=◌
kept-Handled_example =
    kept-Handled in_memory new_memory (memory-KeepsPositions (λ _ scores. scores) (pos 9))
      plain_config in_memory_env demo_start synced_in_memory 6 6 refl (inl refl) (λ _. high_enough)
      refl (synced 2 created) refl (omega arith) (omega arith)

keeping_env-Serves : Serves plain_config keeping_env
keeping_env-Serves = record {
  last_block = λ t. tt;
  store = λ t n. tt;
  header = λ t b. tt;
  block_logs = λ t b. tt;
  range_logs = λ t from to. tt;
  parallel_logs = λ t from to. tt;
  dispatch = λ t l time. tt;
}

keeping_env-IsSized : IsSized plain_config keeping_env 6
keeping_env-IsSized = record {
  limits = λ t. omega arith;
  plans = λ t. record { providers = omega arith; chunk = omega arith; span = omega arith };
}

sync-catches_up_example :
    ((sync_blocks plain_config keeping_env 72 once_synced).0 ≡ done tt)
    × ((b : ℕ)
        → first_block plain_config keeping_env ≤ b
        → b ≤ 6
        → Handled b (sync_blocks plain_config keeping_env 72 once_synced).1.calls)
sync-catches_up_example =
    sync-catches_up plain_config keeping_env keeping_env-Serves 6 72 demo_start once_synced refl
      (inl refl) (omega arith) (λ _. refl) keeping_env-IsSized (omega arith) (omega arith)
      (λ _. refl) (λ _. refl) refl (synced 2 created)
