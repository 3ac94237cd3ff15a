-- ===== src/Indexer/Demo.antt =====
-- A chain, a pool and a storage for the tests: block n has timestamp 100 + n and one log, and every
-- call succeeds.
use go_block_walk.Prelude.{codes, ℕ, ◌+◌, ◌*◌, true, false, none, [], ◌∷◌}
use go_block_walk.Prelude.Int.{pos}
use go_block_walk.Errors.{ok}
use go_block_walk.Dispatcher.{Log}
use go_block_walk.Ports.{Header, Env}
use go_block_walk.Hashes.{empty_window}
use go_block_walk.Indexer.Actions.{Indexer}
use go_block_walk.Indexer.{IndexerConfig}

abbrev pub demo_header : ℕ → Header
demo_header b = record { time = 100 + b; hash = 7 * b }

abbrev pub demo_log : ℕ → Log
demo_log b = record { block_number = b; content = [] }

abbrev pub demo_env : Env ℕ
demo_env = record {
  zero = 0;
  provider = λ _. true;
  last_block = λ _. ok 0;
  store = λ _ _. ok tt;
  block_number = λ _. ok 6;
  max_log_block_range = λ _. pos 2;
  header = λ _ b. ok (demo_header b);
  block_logs = λ _ b. ok (demo_log b ∷ []);
  range_logs = λ _ from to. ok (demo_log from ∷ []);
  is_parallel = false;
  parallel_plan = λ _. (pos 0, pos 0);
  parallel_logs = λ _ from to. ok (demo_log from ∷ []);
  classifier = none;
  dispatch = λ _ _ _. ok tt;
  keeps_scores = false;
  scores = λ _. [];
  store_score = λ _ _ _ _. ok tt;
  keeps_quotas = false;
  persist_quota = λ _. ok tt;
  wait_for_restart = λ _. true;
}

abbrev pub demo_config : IndexerConfig
demo_config = record {
  chain = codes "demo";
  start_block = 5;
  block_interval = pos 1000000000;
  max_consecutive_provider_exhaustion = pos 5;
  provider_exhaustion_restart_delay = pos 15000000000;
  debug_mode = false;
  reorg_depth = pos 3;
}

abbrev pub demo_start : Indexer ℕ
demo_start = record {
  calls = [];
  window = empty_window;
  exhaustion = record { threshold = pos 5; consecutive = pos 0 };
}
