-- ===== src/Indexer/Success.antt =====
-- The blocks of a sync (indexer.go), if the interfaces answer: no error.
use go_block_walk.Prelude.{ℕ, zero, suc, ◌+◌, ◌%◌, ◌<◌, ◌≡◌, List, [], ◌∷◌, Text, true, leb}
use go_block_walk.Errors.{Result, ok, err}
use go_block_walk.Dispatcher.{Log}
use go_block_walk.Ports.{Call, Env}
use go_block_walk.Indexer.{
  IndexerConfig, u64, header_by_number, dispatch_log, record_hash, store_last_block, store_scores,
  persist_scores, persist_quotas, persist_provider_state, save_progress, dispatch_all,
  process_block, skip_or_fail, sync_one_block, sync_blocks_sequential,
}
use go_block_walk.Indexer.Batched.{is_too_large}
use go_block_walk.Indexer.Works.{
  IsOk, Works, Unfailing, Works-pure, Works-spin, Works-ask, Unfailing-gets, Unfailing-must,
  Works-if, Works-attempt, Unfailing-set_window, Works-bind, Works-then,
}

-- Answers, or a range of two blocks at least that is rejected as too large.
abbrev pub Splits : {F A : Type 0} → IndexerConfig → Env F → ℕ → ℕ → Result A → Type 0
Splits cfg env from to (ok a) = Unit
Splits cfg env from to (err e) = (is_too_large cfg env e ≡ true) × (from < to)

-- The interfaces answer every call, but for ranges that are too large. What is stored of scores and
-- quotas may fail.
pub record Serves {F : Type 0} (cfg : IndexerConfig) (env : Env F) : Type 0 where
  pub last_block : (t : List (Call F)) → IsOk (env.last_block t)
  pub store : (t : List (Call F)) (n : ℕ) → IsOk (env.store t n)
  pub header : (t : List (Call F)) (b : ℕ) → IsOk (env.header t b)
  pub block_logs : (t : List (Call F)) (b : ℕ) → IsOk (env.block_logs t b)
  pub range_logs :
      (t : List (Call F)) (from to : ℕ) → Splits cfg env from to (env.range_logs t from to)
  pub parallel_logs :
      (t : List (Call F)) (from to : ℕ) → Splits cfg env from to (env.parallel_logs t from to)
  pub dispatch : (t : List (Call F)) (l : Log) (time : ℕ) → IsOk (env.dispatch t l time)

module _ {F : Type 0} (S : Type 0) (cfg : IndexerConfig) (env : Env F)
    (serves : Serves cfg env) where
  pub Works-header_by_number : (b : ℕ) → Works S (header_by_number cfg env b) IsOk
  unfolding header_by_number
  Works-header_by_number b = Works-ask _ _ _ (λ t. serves.header t b)

  pub Works-dispatch_log : (l : Log) (time : ℕ) → Works S (dispatch_log cfg env l time) IsOk
  unfolding dispatch_log
  Works-dispatch_log l time = Works-ask _ _ _ (λ t. serves.dispatch t l time)

  pub Unfailing-record_hash : (b hash : ℕ) → Unfailing S (record_hash cfg env b hash)
  unfolding record_hash
  Unfailing-record_hash b hash = Works-then _ _ _ (Unfailing-gets _) (λ w. Unfailing-set_window _)

  pub Works-store_last_block : (b : ℕ) → Works S (store_last_block cfg env b) IsOk
  unfolding store_last_block
  Works-store_last_block b =
      Works-if _ cfg.debug_mode _ _ (λ _. Works-pure _ (ok tt) tt)
        (λ _. Works-ask _ _ _ (λ t. serves.store t b))

  Unfailing-store_scores : (scores : List (Text × F)) → Unfailing S (store_scores cfg env scores)
  unfolding store_scores
  Unfailing-store_scores [] = Works-pure _ _ tt
  Unfailing-store_scores ((provider, score) ∷ rest) =
      Works-then _ _ _ (Works-ask _ _ _ (λ _. tt)) (λ _. Unfailing-store_scores rest)

  Unfailing-persist_provider_state : Unfailing S (persist_provider_state cfg env)
  unfolding persist_provider_state persist_scores persist_quotas
  Unfailing-persist_provider_state =
      Works-then _ _ _
        (Works-if _ env.keeps_scores _ _
          (λ _. Works-then _ _ _ (Works-ask _ _ _ (λ _. tt)) Unfailing-store_scores)
          (λ _. Works-pure _ _ tt))
        (λ _.
          Works-if _ env.keeps_quotas _ _
            (λ _. Works-then _ _ _ (Works-ask _ _ _ (λ _. tt)) (λ _. Works-pure _ _ tt))
            (λ _. Works-pure _ _ tt))

  pub Unfailing-save_progress : (b : ℕ) → Unfailing S (save_progress cfg env b)
  unfolding save_progress
  Unfailing-save_progress b =
      Works-bind _ _ _ _ (Works-store_last_block b)
        (λ r h. Works-then _ _ _ (Unfailing-must _ r h) (λ _. Unfailing-persist_provider_state))

  Unfailing-dispatch_all :
      (b time : ℕ) (logs : List Log) → Unfailing S (dispatch_all cfg env b time logs)
  unfolding dispatch_all
  Unfailing-dispatch_all b time [] = Works-pure _ _ tt
  Unfailing-dispatch_all b time (l ∷ ls) =
      Works-bind _ _ _ _ (Works-dispatch_log l time)
        (λ r h. Works-then _ _ _ (Unfailing-must _ r h) (λ _. Unfailing-dispatch_all b time ls))

  Unfailing-process_block : (b : ℕ) → Unfailing S (process_block cfg env b)
  unfolding process_block
  Unfailing-process_block b = Works-bind _ _ _ _ (Works-header_by_number b) λ r h.
      Works-then _ _ _ (Unfailing-must _ r h) λ header.
        Works-then _ _ _ (Unfailing-record_hash b header.hash) λ _.
          Works-bind IsOk _ _ _ (Works-ask _ _ _ (λ t. serves.block_logs t b)) λ r' h'.
            Works-then _ _ _ (Unfailing-must _ r' h')
              λ logs. Unfailing-dispatch_all b header.time logs

  Unfailing-skip_or_fail :
      (b : ℕ) (r : Result (Unit {0})) → IsOk r → Unfailing S (skip_or_fail cfg env b r)
  unfolding skip_or_fail
  Unfailing-skip_or_fail b (ok _) h = Works-pure _ _ tt
  Unfailing-skip_or_fail b (err e) h = absurd h

  Unfailing-sync_one_block : (b : ℕ) → Unfailing S (sync_one_block cfg env b)
  unfolding sync_one_block
  Unfailing-sync_one_block b =
      Works-bind _ _ _ _ (Works-attempt _ (Unfailing-process_block b))
        λ r h. Works-then _ _ _ (Unfailing-skip_or_fail b r h) λ _. Unfailing-save_progress b

module _ {F : Type 0} (cfg : IndexerConfig) (env : Env F) (serves : Serves cfg env) where
  pub Unfailing-sync_blocks_sequential :
      (rounds b current : ℕ) → Unfailing Unit (sync_blocks_sequential cfg env rounds b current)
  unfolding sync_blocks_sequential
  Unfailing-sync_blocks_sequential zero b current =
      Works-if _ (leb b current) _ _ (λ _. Works-spin _ tt) (λ _. Works-pure _ _ tt)
  Unfailing-sync_blocks_sequential (suc rounds) b current =
      Works-if _ (leb b current) _ _
        (λ _.
          Works-then _ _ _ (Unfailing-sync_one_block Unit cfg env serves b)
            (λ _. Unfailing-sync_blocks_sequential rounds ((b + 1) % u64) current))
        (λ _. Works-pure _ _ tt)
