-- ===== src/Setup/Tests.antt =====
-- A provider with a penalty of ten is restored onto a fresh one of its name; and what NewIndexer
-- accepts.
use go_block_walk.Prelude.{◌≡◌, ◌↔◌, refl, true, false, some, [], ◌∷◌, In, if◌then◌else◌}
use go_block_walk.Prelude.Int.{ℤ, pos, eqb_ℤ, ◌≤ℤ◌}
use go_block_walk.Prelude.Strings.{text_eq}
use go_block_walk.Errors.{ok}
use go_block_walk.Indexer.{IndexerConfig}
use go_block_walk.Indexer.Demo.{demo_config}
use go_block_walk.Exhaustion.{ExhaustionTracker}
use go_block_walk.Memory.Quotas.{get_quota_usage, new_memory_quota_storage}
use go_block_walk.Memory.Scores.{get_provider_score, new_memory_score_storage}
use go_block_walk.Provider
use go_block_walk.Provider.{Provider}
use go_block_walk.Provider.Demo.{tenths, provider}
use go_block_walk.Ranking.{PoolState, persist_quota_usage}
use go_block_walk.Setup.{restore_one, Given, new_indexer, new_indexer-ok_iff}
use go_block_walk.Setup.Restart.{persist_scores_in, requests_of, set_requests, restore_one-persist}

abbrev penalised : PoolState ℤ
penalised = record {
  ordered_list = provider ∷ [];
  penalties = λ _. pos 100;
  update_interval = pos 1;
  sizing = record {
    max_log_block_range = pos 1;
    max_parallel_job_attempts = pos 0;
    range_too_large_filters = [];
  };
  log_addresses = [];
  log_topics = [];
  closed = false;
}

restore_one-persist_example :
    let m' = persist_scores_in tenths (pos 9) penalised (provider ∷ []) new_memory_score_storage in
    let k' =
      (persist_quota_usage tenths
        (set_requests tenths (pos 9))
        (provider ∷ [])
        new_memory_quota_storage).1 in
    restore_one tenths
      (some (λ n. ok (get_provider_score m' n)))
      (some (λ n. ok (get_quota_usage k' (requests_of tenths (pos 9) n))))
      provider
    ≡ record provider {
      current_score = tenths.minus provider.current_score (pos 100);
      quota = record provider.quota {
        used = provider.quota.used;
        reset_time =
            if eqb_ℤ provider.quota.reset_time (pos 0)
            then provider.quota.reset_time
            else provider.quota.reset_time;
      };
    }
unfolding go_block_walk.Provider.new_provider
restore_one-persist_example =
    restore_one-persist tenths (pos 9) penalised (provider ∷ []) new_memory_score_storage
      new_memory_quota_storage provider provider ((λ e. absurd (cc)), (λ i. elim i [ ]), tt)
      (In.here refl) refl

abbrev all_given : Given
all_given = record { pool = true; storage = true; dispatcher = true }

new_indexer-ok_iff_example :
    (((r : IndexerConfig × ExhaustionTracker) × (new_indexer all_given demo_config ≡ ok r))
      ↔ (all_given.pool ≡ true)
        × (all_given.storage ≡ true)
        × (all_given.dispatcher ≡ true)
        × (text_eq demo_config.chain [] ≡ false)
        × (pos 1 ≤ℤ demo_config.block_interval))
    × ((kept : IndexerConfig) (tracker : ExhaustionTracker)
        → new_indexer all_given demo_config ≡ ok (kept, tracker)
        → (pos 1 ≤ℤ kept.max_consecutive_provider_exhaustion)
          × (pos 1 ≤ℤ kept.provider_exhaustion_restart_delay)
          × (tracker.threshold ≡ kept.max_consecutive_provider_exhaustion)
          × (kept.start_block ≡ demo_config.start_block)
          × (kept.reorg_depth ≡ demo_config.reorg_depth))
new_indexer-ok_iff_example = new_indexer-ok_iff all_given demo_config
