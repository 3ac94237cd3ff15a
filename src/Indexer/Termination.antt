-- ===== src/Indexer/Termination.antt =====
-- The loop of syncBlocksSequential (indexer.go) ends.
use go_block_walk.Prelude.{ℕ, zero, suc, ◌+◌, ◌%◌, ◌≤◌, ◌<◌, ◌≢◌, arith, leb}
use go_block_walk.Ports.{Env}
use go_block_walk.Indexer.Actions.{Indexer, spinning}
use go_block_walk.Indexer.{IndexerConfig, u64, sync_blocks_sequential}
use go_block_walk.Indexer.Ends.{
  Halts, Ends-pure, Ends-if, Ends-then, Ends-not_spinning, Halts-sync_one_block,
}

module _ {F : Type 0} (cfg : IndexerConfig) (env : Env F) where
  pub Halts-sync_blocks_sequential :
      (rounds b current : ℕ)
      → current + 1 < u64
      → current + 1 ≤ rounds + b
      → Halts (sync_blocks_sequential cfg env rounds b current)
  unfolding sync_blocks_sequential
  Halts-sync_blocks_sequential zero b current u enough =
      Ends-if _ (leb b current) _ _ (λ l. absurd (ground arith)) (λ _. Ends-pure _ _ tt)
  Halts-sync_blocks_sequential (suc rounds) b current u enough =
      Ends-if _ (leb b current) _ _
        (λ l.
          Ends-then _ _ _ (Halts-sync_one_block cfg env b)
            (λ _. Halts-sync_blocks_sequential rounds ((b + 1) % u64) current u (ground arith)))
        (λ _. Ends-pure _ _ tt)

  -- A block-by-block sync up to a block below 2 ^ 64 - 1 ends, with success or an error, in at most
  -- one round for each block from `start` to `current`, whatever the interfaces answer.
  pub sequential-ends :
      (rounds start current : ℕ) (s : Indexer F)
      → current + 1 < u64
      → current + 1 ≤ rounds + start
      → (sync_blocks_sequential cfg env rounds start current s).0 ≢ spinning
  sequential-ends rounds start current s u enough =
      Ends-not_spinning _ _ (Halts-sync_blocks_sequential rounds start current u enough) s
