-- ===== src/Indexer/Batched/Success.antt =====
-- The batched path of indexer.go, if the interfaces answer all but ranges that are too large: no error.
use go_block_walk.Prelude.{
  ℕ, zero, suc, ◌≡◌, List, [], ◌∷◌, Option, none, some, true, arith, leb, ltb, ◌==◌,
}
use go_block_walk.Prelude.Int.{pos, ltb_ℤ}
use go_block_walk.Errors.{Result, ok, err}
use go_block_walk.Dispatcher.{Log}
use go_block_walk.Ports.{Header, Env}
use go_block_walk.Indexer.{IndexerConfig, max_log_block_range}
use go_block_walk.Indexer.Batched.{
  BlockTimes, Cursor, read_time, look_up, block_time, deliver, dispatch_logs, record_if_known,
  record_chunk_end, apply_batch_chunk, use_parallel, fetch_parallel, planned_round, parallel_round,
  choose_size, chunk_end_for, after_fetch, single_round, after_parallel, sync_one_chunk,
  sync_chunks, sync_blocks_batched,
}
use go_block_walk.Indexer.Works.{
  IsOk, Unfailing, Works-pure, Works-spin, Works-ask, Unfailing-must, Works-if, Works-bind,
  Works-then,
}
use go_block_walk.Indexer.Success.{
  Serves, Splits, Works-header_by_number, Works-dispatch_log, Unfailing-record_hash,
  Unfailing-save_progress,
}

module _ {F : Type 0} (cfg : IndexerConfig) (env : Env F) (serves : Serves cfg env) where
  Unfailing-read_time :
      (times : BlockTimes) (b : ℕ) (r : Result Header)
      → IsOk r
      → Unfailing Unit (read_time cfg env times b r)
  unfolding read_time
  Unfailing-read_time times b (ok header) h = Works-pure _ _ tt
  Unfailing-read_time times b (err e) h = absurd h

  Unfailing-look_up :
      (times : BlockTimes) (b : ℕ) (o : Option ℕ) → Unfailing Unit (look_up cfg env times b o)
  unfolding look_up
  Unfailing-look_up times b (some time) = Works-pure _ _ tt
  Unfailing-look_up times b none =
      Works-bind _ _ _ _ (Works-header_by_number Unit cfg env serves b)
        (Unfailing-read_time times b)

  Unfailing-deliver : (l : Log) (time : ℕ) → Unfailing Unit (deliver cfg env l time)
  unfolding deliver
  Unfailing-deliver l time =
      Works-if _ (time == 0) _ _ (λ _. Works-pure _ _ tt)
        (λ _.
          Works-bind _ _ _ _ (Works-dispatch_log Unit cfg env serves l time)
            (λ r h. Unfailing-must _ r h))

  Unfailing-dispatch_logs :
      (times : BlockTimes) (logs : List Log) → Unfailing Unit (dispatch_logs cfg env times logs)
  unfolding dispatch_logs block_time
  Unfailing-dispatch_logs times [] = Works-pure _ _ tt
  Unfailing-dispatch_logs times (l ∷ ls) =
      Works-then _ _ _ (Unfailing-look_up times l.block_number (times l.block_number))
        (λ p. Works-then _ _ _ (Unfailing-deliver l p.0) (λ _. Unfailing-dispatch_logs p.1 ls))

  Unfailing-record_if_known :
      (b : ℕ) (r : Result Header) → Unfailing Unit (record_if_known cfg env b r)
  unfolding record_if_known
  Unfailing-record_if_known b (ok header) = Unfailing-record_hash Unit cfg env serves b header.hash
  Unfailing-record_if_known b (err e) = Works-pure _ _ tt

  Unfailing-apply_batch_chunk :
      (logs : List Log) (to : ℕ) → Unfailing Unit (apply_batch_chunk cfg env logs to)
  unfolding apply_batch_chunk record_chunk_end
  Unfailing-apply_batch_chunk logs to = Works-then _ _ _ (Unfailing-dispatch_logs _ logs) λ _.
      Works-then _ _ _
        (Works-if _ (ltb_ℤ (pos 0) cfg.reorg_depth) _ _
          (λ _.
            Works-bind _ _ _ _ (Works-header_by_number Unit cfg env serves to)
              (λ r _. Unfailing-record_if_known to r))
          (λ _. Works-pure _ _ tt))
        (λ _. Unfailing-save_progress Unit cfg env serves to)

  Unfailing-use_parallel :
      (from to : ℕ) (r : Result (List Log))
      → Splits cfg env from to r
      → Unfailing Unit (use_parallel cfg env from to r)
  unfolding use_parallel
  Unfailing-use_parallel from to (ok logs) h =
      Works-then _ _ _ (Unfailing-apply_batch_chunk logs to) (λ _. Works-pure _ _ tt)
  Unfailing-use_parallel from to (err e) h = rw h.0 (Works-pure _ _ tt)

  Unfailing-planned_round :
      (from : ℕ) (o : Option ℕ) → Unfailing Unit (planned_round cfg env from o)
  unfolding planned_round fetch_parallel
  Unfailing-planned_round from none = Works-pure _ _ tt
  Unfailing-planned_round from (some to) =
      Works-bind (Splits cfg env from to) _ _ _
        (Works-ask _ _ _ (λ t. serves.parallel_logs t from to)) (Unfailing-use_parallel from to)

  Unfailing-parallel_round :
      (from current : ℕ) → Unfailing Unit (parallel_round cfg env from current)
  unfolding parallel_round
  Unfailing-parallel_round from current =
      Works-if _ env.is_parallel _ _
        (λ _. Works-then _ _ _ (Works-ask _ _ _ (λ _. tt)) (λ plan. Unfailing-planned_round from _))
        (λ _. Works-pure _ _ tt)

  Unfailing-choose_size : (c : Cursor) → Unfailing Unit (choose_size cfg env c)
  unfolding choose_size max_log_block_range
  Unfailing-choose_size c =
      Works-if _ c.retrying _ _ (λ _. Works-pure _ _ tt)
        (λ _. Works-then _ _ _ (Works-ask _ _ _ (λ _. tt)) (λ _. Works-pure _ _ tt))

  Unfailing-after_fetch :
      (c : Cursor) (size to : ℕ) (r : Result (List Log))
      → Splits cfg env c.chunk_start to r
      → Unfailing Unit (after_fetch cfg env c size to r)
  unfolding after_fetch
  Unfailing-after_fetch c size to (ok logs) h =
      Works-then _ _ _ (Unfailing-apply_batch_chunk logs to) (λ _. Works-pure _ _ tt)
  Unfailing-after_fetch c size to (err e) h =
      let wide : ltb c.chunk_start to ≡ true = ground (arith, h.1) in
      rw (h.0, wide) (Works-pure _ _ tt)

  Unfailing-single_round :
      (c : Cursor) (current : ℕ) → Unfailing Unit (single_round cfg env c current)
  unfolding single_round
  Unfailing-single_round c current = Works-then _ _ _ (Unfailing-choose_size c) λ size.
      let to = chunk_end_for cfg env c.chunk_start size current in
      Works-bind (Splits cfg env c.chunk_start to) _ _ _
        (Works-ask _ _ _ (λ t. serves.range_logs t c.chunk_start to))
        (Unfailing-after_fetch c size to)

  Unfailing-after_parallel :
      (c : Cursor) (current : ℕ) (o : Option ℕ)
      → Unfailing Unit (after_parallel cfg env c current o)
  unfolding after_parallel
  Unfailing-after_parallel c current none = Unfailing-single_round c current
  Unfailing-after_parallel c current (some to) = Works-pure _ _ tt

  Unfailing-sync_chunks :
      (rounds current : ℕ) (c : Cursor) → Unfailing Unit (sync_chunks cfg env rounds c current)
  unfolding sync_chunks sync_one_chunk
  Unfailing-sync_chunks zero current c =
      Works-if _ (leb c.chunk_start current) _ _ (λ _. Works-spin _ tt) (λ _. Works-pure _ _ tt)
  Unfailing-sync_chunks (suc rounds) current c =
      Works-if _ (leb c.chunk_start current) _ _
        (λ _.
          Works-then _ _ _
            (Works-then _ _ _ (Unfailing-parallel_round c.chunk_start current)
              (Unfailing-after_parallel c current))
            (Unfailing-sync_chunks rounds current))
        (λ _. Works-pure _ _ tt)

  pub Unfailing-sync_blocks_batched :
      (rounds start current : ℕ) → Unfailing Unit (sync_blocks_batched cfg env rounds start current)
  unfolding sync_blocks_batched max_log_block_range
  Unfailing-sync_blocks_batched rounds start current =
      Works-then _ _ _ (Works-ask _ _ _ (λ _. tt)) (λ _. Unfailing-sync_chunks rounds current _)
