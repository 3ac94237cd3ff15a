-- ===== src/Indexer/Batched.antt =====
-- indexer.go: syncBlocksBatched and applyBatchChunk.
pub mod Delivery
pub mod Fetches
pub mod Coverage
pub mod Spans
pub mod Rounds
pub mod Termination
pub mod Success
mod Tests
use go_block_walk.Prelude.{
  ℕ, zero, suc, ◌+◌, ◌-◌, ◌*◌, ◌/◌, ◌%◌, Bool, true, false, ◌&&◌, Option, none, some, List, [], ◌∷◌,
  codes, ltb, leb, ◌==◌, if◌then◌else◌,
}
use go_block_walk.Prelude.Int.{ℤ, pos, ltb_ℤ}
use go_block_walk.Errors.{
  GoError, wrap, Result, ok, err, is_local_decode_error, is_range_too_large_error,
}
use go_block_walk.Dispatcher.{Log}
use go_block_walk.Ports.{Header, Env, got_range_logs, got_parallel_plan, got_parallel_logs}
use go_block_walk.Hashes.{update}
use go_block_walk.Indexer.Actions.{Exec, pure, fail, spin, ask, must, ◌>>=◌, ◌>>◌}
use go_block_walk.Indexer.{
  IndexerConfig, u64, to_u64, about_block, about_blocks, header_by_number, dispatch_log,
  max_log_block_range, record_hash, save_progress,
}

-- blockTimes: `none` where the map has no entry
abbrev pub BlockTimes : Type 0
BlockTimes = ℕ → Option ℕ

-- The variables of the loop of `syncBlocksBatched`.
pub record Cursor : Type 0 where
  pub chunk_start : ℕ
  pub chunk_size : ℕ
  pub retrying : Bool

module _ {F : Type 0} (cfg : IndexerConfig) (env : Env F) where
  -- The timestamp of a log's block, and the map with it. A header that cannot be decoded counts as
  -- timestamp 0.
  read_time : BlockTimes → ℕ → Result Header → Exec F (ℕ × BlockTimes)
  read_time times b (ok header) = pure (header.time, update times b (some header.time))
  read_time times b (err e) =
      if is_local_decode_error (some e)
      then pure (0, update times b (some 0))
      else fail (wrap (about_block (codes "failed to get header for block ") b) e)

  look_up : BlockTimes → ℕ → Option ℕ → Exec F (ℕ × BlockTimes)
  unfolding read_time
  look_up times b (some time) = pure (time, times)
  look_up times b none = do r ← header_by_number cfg env b; read_time times b r

  block_time : BlockTimes → ℕ → Exec F (ℕ × BlockTimes)
  unfolding look_up
  block_time times b = look_up times b (times b)

  -- if blockTime == 0 { continue }
  deliver : Log → ℕ → Exec F (Unit {0})
  deliver l time = if time == 0 then pure tt else do
    r ← dispatch_log cfg env l time
    must (about_block (codes "failed to dispatch log for block ") l.block_number) r

  pub dispatch_logs : BlockTimes → List Log → Exec F (Unit {0})
  unfolding block_time deliver
  dispatch_logs times [] = pure tt
  dispatch_logs times (l ∷ ls) = do
    (time, times') ← block_time times l.block_number
    deliver l time
    dispatch_logs times' ls

  record_if_known : ℕ → Result Header → Exec F (Unit {0})
  record_if_known b (ok header) = record_hash cfg env b header.hash
  record_if_known b (err e) = pure tt

  pub record_chunk_end : ℕ → Exec F (Unit {0})
  unfolding record_if_known
  record_chunk_end b = do r ← header_by_number cfg env b; record_if_known b r

  pub apply_batch_chunk : List Log → ℕ → Exec F (Unit {0})
  unfolding record_chunk_end
  apply_batch_chunk logs chunk_end = do
    dispatch_logs (λ _. none) logs
    (if ltb_ℤ (pos 0) cfg.reorg_depth then record_chunk_end chunk_end else pure tt)
    save_progress cfg env chunk_end

  pub is_too_large : GoError → Bool
  is_too_large e = elim env.classifier [
    | some classify ↦ classify e
    | none ↦ is_range_too_large_error (some e)
  ]

  -- What the parallel part of a round of `syncBlocksBatched` comes to: `some end` if it served the
  -- blocks up to `end`, `none` if the round goes on with the single-provider part.
  parallel_span : ℕ → ℕ → ℤ × ℤ → Option ℕ
  parallel_span chunk_start current (providers, chunk) =
      let remaining = (current + u64 - chunk_start + 1) % u64 in
      let span = to_u64 chunk * to_u64 providers % u64 in
      if ltb_ℤ (pos 1) providers && ltb_ℤ (pos 0) chunk && ltb (to_u64 chunk) remaining
      then some ((chunk_start + (if ltb remaining span then remaining else span) + u64 - 1) % u64)
      else none

  use_parallel : ℕ → ℕ → Result (List Log) → Exec F (Option ℕ)
  unfolding is_too_large
  use_parallel chunk_start chunk_end (ok logs) = do
    apply_batch_chunk logs chunk_end
    pure (some chunk_end)
  use_parallel chunk_start chunk_end (err e) =
      if is_too_large e
      then pure none
      else fail (
          wrap
            (about_blocks (codes "failed to get logs for parallel blocks ") chunk_start chunk_end)
            e)

  fetch_parallel : ℕ → ℕ → Exec F (Option ℕ)
  unfolding use_parallel
  fetch_parallel chunk_start chunk_end = do
    r ←
        ask (λ t. env.parallel_logs t chunk_start chunk_end)
          (got_parallel_logs chunk_start chunk_end)
    use_parallel chunk_start chunk_end r

  planned_round : ℕ → Option ℕ → Exec F (Option ℕ)
  planned_round chunk_start none = pure none
  planned_round chunk_start (some chunk_end) = fetch_parallel chunk_start chunk_end

  pub parallel_round : ℕ → ℕ → Exec F (Option ℕ)
  unfolding parallel_span planned_round fetch_parallel is_too_large
  parallel_round chunk_start current =
      if env.is_parallel
      then (do
        plan ← ask env.parallel_plan got_parallel_plan
        planned_round chunk_start (parallel_span chunk_start current plan))
      else pure none

  choose_size : Cursor → Exec F ℕ
  choose_size c = if c.retrying then pure c.chunk_size else do
    limit ← max_log_block_range cfg env
    pure (if ltb 0 (to_u64 limit) then to_u64 limit else c.chunk_size)

  chunk_end_for : ℕ → ℕ → ℕ → ℕ
  chunk_end_for chunk_start size current =
      let end = (chunk_start + size + u64 - 1) % u64 in if ltb current end then current else end

  -- chunkSize = (chunkEnd - chunkStart + 1) / 2; if chunkSize == 0 { chunkSize = 1 }
  halved : ℕ → ℕ → ℕ
  halved chunk_start chunk_end =
      let half = (chunk_end - chunk_start + 1) / 2 in if half == 0 then 1 else half

  after_fetch : Cursor → ℕ → ℕ → Result (List Log) → Exec F Cursor
  unfolding halved is_too_large
  after_fetch c size chunk_end (ok logs) = do
    apply_batch_chunk logs chunk_end
    pure (record { chunk_start = (chunk_end + 1) % u64; chunk_size = size; retrying = false })
  after_fetch c size chunk_end (err e) =
      if is_too_large e && ltb c.chunk_start chunk_end
      then pure (record {
        chunk_start = c.chunk_start;
        chunk_size = halved c.chunk_start chunk_end;
        retrying = true;
      })
      else fail
          (wrap (about_blocks (codes "failed to get logs for blocks ") c.chunk_start chunk_end) e)

  pub single_round : Cursor → ℕ → Exec F Cursor
  unfolding choose_size chunk_end_for after_fetch
  single_round c current = do
    size ← choose_size c
    let chunk_end = chunk_end_for c.chunk_start size current
    r ← ask (λ t. env.range_logs t c.chunk_start chunk_end) (got_range_logs c.chunk_start chunk_end)
    after_fetch c size chunk_end r

  after_parallel : Cursor → ℕ → Option ℕ → Exec F Cursor
  after_parallel c current (some chunk_end) =
      pure (record c { chunk_start = (chunk_end + 1) % u64 })
  after_parallel c current none = single_round c current

  -- One round of the loop of `syncBlocksBatched`: the loop's variables before and after it.
  pub sync_one_chunk : Cursor → ℕ → Exec F Cursor
  unfolding after_parallel
  sync_one_chunk c current = do
    served ← parallel_round c.chunk_start current
    after_parallel c current served

  -- The loop, for at most the given rounds.
  pub sync_chunks : ℕ → Cursor → ℕ → Exec F (Unit {0})
  sync_chunks zero c current = if leb c.chunk_start current then spin else pure tt
  sync_chunks (suc rounds) c current =
      let round = (do c' ← sync_one_chunk c current; sync_chunks rounds c' current) in
      if leb c.chunk_start current then round else pure tt

  pub sync_blocks_batched : ℕ → ℕ → ℕ → Exec F (Unit {0})
  sync_blocks_batched rounds start current = do
    limit ← max_log_block_range cfg env
    let size = if to_u64 limit == 0 then 1 else to_u64 limit
    sync_chunks rounds (record { chunk_start = start; chunk_size = size; retrying = false }) current
