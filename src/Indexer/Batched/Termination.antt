-- ===== src/Indexer/Batched/Termination.antt =====
-- The loop of syncBlocksBatched (indexer.go) ends.
use go_block_walk.Prelude.{
  ℕ, zero, suc, ◌+◌, ◌-◌, ◌*◌, ◌≤◌, ◌<◌, ◌≢◌, false, arith, leb, ◌==◌, if◌then◌else◌,
}
use go_block_walk.Ports.{Env}
use go_block_walk.Indexer.Actions.{Indexer, spinning}
use go_block_walk.Indexer.{IndexerConfig, u64, to_u64, max_log_block_range}
use go_block_walk.Indexer.Batched.{Cursor, sync_chunks, sync_blocks_batched}
use go_block_walk.Indexer.Ends.{Halts, Ends-pure, Ends-ask, Ends-if, Ends-bind, Ends-not_spinning}
use go_block_walk.Indexer.Batched.Spans.{IsSized}
use go_block_walk.Indexer.Batched.Rounds.{Fits, Steps, measure, mul_step, sync_one_chunk-Steps}

module _ {F : Type 0} (cfg : IndexerConfig) (env : Env F) where
  Halts-sync_chunks :
      (n rounds current : ℕ) (c : Cursor)
      → IsSized cfg env current
      → Fits cfg env n current c
      → current + 1 ≤ n + c.chunk_start
      → current + 1 < u64
      → measure cfg env n current c ≤ rounds
      → Halts (sync_chunks cfg env rounds c current)
  unfolding sync_chunks
  Halts-sync_chunks n zero current c sized f left small enough =
      Ends-if _ (leb c.chunk_start current) _ _
        (λ more.
          absurd (
            ground
              (arith, mul_step cfg env (n + 2) 0 (current + 1 - c.chunk_start) (ground arith))))
        (λ _. Ends-pure _ _ tt)
  Halts-sync_chunks n (suc rounds) current c sized f left small enough =
      Ends-if _ (leb c.chunk_start current) _ _
        (λ more.
          Ends-bind (Steps cfg env n current c) _ _ _
            (sync_one_chunk-Steps cfg env n current c sized f (ground arith) left small)
            (λ c' step.
              Halts-sync_chunks n rounds current c' sized step.fits (ground (arith, step.start))
                small (ground (arith, step.less))))
        (λ _. Ends-pure _ _ tt)

  pub Halts-sync_blocks_batched :
      (rounds n start current : ℕ)
      → IsSized cfg env current
      → current + 1 ≤ n + start
      → current + 2 < u64
      → (n + 1) * (n + 2) ≤ rounds
      → Halts (sync_blocks_batched cfg env rounds start current)
  unfolding sync_blocks_batched max_log_block_range
  Halts-sync_blocks_batched rounds n start current sized left small enough =
      Ends-bind (λ limit. to_u64 limit + current < u64) _ _ _ (Ends-ask _ _ _ sized.limits)
        (λ limit fits.
          let size = if to_u64 limit == 0 then 1 else to_u64 limit in
          Halts-sync_chunks n rounds current
            (record { chunk_start = start; chunk_size = size; retrying = false }) sized
            (record { positive = ground arith; fits = ground arith; bounded = ground arith }) left
            (omega arith)
            (omega (arith, mul_step cfg env (n + 2) (current + 1 - start) (n + 1) (omega arith))))

  -- A batched sync up to a block below 2 ^ 64 - 2 ends, with success or an error, within
  -- (n + 1) * (n + 2) rounds, where n is at least the number of blocks from `start` to `current`,
  -- whatever the interfaces answer, so long as the sizes that the pool names do not wrap around when
  -- they are added to `current` or multiplied: splitting an oversized range and falling back from a
  -- parallel round cannot go on forever.
  pub batched-ends :
      (rounds n start current : ℕ) (s : Indexer F)
      → IsSized cfg env current
      → current + 1 ≤ n + start
      → current + 2 < u64
      → (n + 1) * (n + 2) ≤ rounds
      → (sync_blocks_batched cfg env rounds start current s).0 ≢ spinning
  batched-ends rounds n start current s sized left small enough =
      Ends-not_spinning _ _
        (Halts-sync_blocks_batched rounds n start current sized left small enough) s
