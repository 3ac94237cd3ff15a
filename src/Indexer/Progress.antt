-- ===== src/Indexer/Progress.antt =====
-- The block-by-block path of indexer.go: what a sync has handled when it stores a position.
use go_block_walk.Prelude.{ℕ, ◌+◌, ◌≤◌, ◌≡◌, List, [], ◌∷◌, ◌++◌, subst, arith}
use go_block_walk.Errors.{ok}
use go_block_walk.Ports.{Call, Env, stored_last_block}
use go_block_walk.Indexer.Actions.{Indexer, done}
use go_block_walk.Indexer.{IndexerConfig, sync_blocks_sequential}
use go_block_walk.Indexer.Handled.{Handled, Covered, Covered-empty, Justified, Justified-split}
use go_block_walk.Indexer.Sound.{Sound, Sound-Justified, Sound-done, Sound_of_AfterRound}
use go_block_walk.Indexer.Sequential.{sync_blocks_sequential_lem}

module _ {F : Type 0} (cfg : IndexerConfig) (env : Env F) where
  sequential-Sound :
      (rounds start current : ℕ) (s : Indexer F)
      → s.calls ≡ []
      → Sound start
          (sync_blocks_sequential cfg env rounds start current)
          s
          (λ _. Covered start (current + 1))
  sequential-Sound rounds start current s e =
      Sound_of_AfterRound start (current + 1) _ s
        (sync_blocks_sequential_lem cfg env start rounds start current s (Covered-empty start s e))

  -- In a block-by-block sync from `start`, with no calls before it, when `SetLastBlock(n)` has
  -- succeeded, each block from `start` to `n` had been handled by the calls before it, whatever the
  -- interfaces do and however the sync ends.
  pub sequential-stored_after-Handled :
      (rounds start current : ℕ) (s : Indexer F) (before after : List (Call F)) (n b : ℕ)
      → s.calls ≡ []
      → (sync_blocks_sequential cfg env rounds start current s).1.calls
        ≡ after ++ stored_last_block n (ok tt) ∷ before
      → start ≤ b
      → b ≤ n
      → Handled b before
  sequential-stored_after-Handled rounds start current s before after n b e split l u =
      Justified-split start after before n b
        (subst (Justified start) split
          (Sound-Justified start _ s (sequential-Sound rounds start current s e)))
        l u

  -- A block-by-block sync, with no calls before it, that returns no error has handled every block
  -- from `start` to `current`.
  pub sequential-done :
      (rounds start current : ℕ) (s : Indexer F) (b : ℕ)
      → s.calls ≡ []
      → (sync_blocks_sequential cfg env rounds start current s).0 ≡ done tt
      → start ≤ b
      → b ≤ current
      → Handled b (sync_blocks_sequential cfg env rounds start current s).1.calls
  sequential-done rounds start current s b e d l u =
      (Sound-done start _ s d (sequential-Sound rounds start current s e)).handled b l (omega arith)
