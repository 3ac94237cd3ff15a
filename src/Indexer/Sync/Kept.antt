-- ===== src/Indexer/Sync/Kept.antt =====
-- The syncs of an indexer.go Indexer over a ChainStorage (ports.go) that keeps positions.
use go_block_walk.Prelude.{ℕ, ◌+◌, ◌≤◌, ◌≡◌, ◌⊎◌, ◌∙◌, sym, false, true, List, [], ◌∷◌, arith, Text}
use go_block_walk.Prelude.Int.{leb_ℤ, pos}
use go_block_walk.Errors.{ok}
use go_block_walk.Ports.{Call, Env, stored_last_block}
use go_block_walk.Ports.Storage.{ChainStorage, KeepsPositions}
use go_block_walk.Indexer.Actions.{Indexer}
use go_block_walk.Indexer.{IndexerConfig}
use go_block_walk.Indexer.Handled.{Handled}
use go_block_walk.Indexer.Sync.{first_position}
use go_block_walk.Indexer.Sync.Positions.{first_block, Remembers, Handled-last_stored, last_stored}
use go_block_walk.Indexer.Sync.Session.{Session, Session-Justified}

module _ {F S : Type 0} (storage : ChainStorage S) (first : S) (chain : Text) where
  -- The storage after the calls, the newest first.
  unfoldable pub kept : List (Call F) → S
  kept [] = first
  kept (stored_last_block n (ok u) ∷ t) = (storage.set_last_block chain n (kept t)).1
  kept (_ ∷ t) = kept t

  -- The interfaces of `env`, with this storage behind the last block.
  unfoldable pub over : Env F → Env F
  unfolding kept
  over env = record env {
    last_block = λ t. storage.get_last_block chain (kept t);
    store = λ t n. (storage.set_last_block chain n (kept t)).0;
  }

  module _ (keeps : KeepsPositions storage first) where
    kept-last_stored :
        (t : List (Call F)) → storage.get_last_block chain (kept t) ≡ ok (last_stored t)
    unfolding kept last_stored
    kept-last_stored [] = keeps.fresh chain
    kept-last_stored (stored_last_block n (ok u) ∷ t) = keeps.gives_back chain n (kept t)
    kept-last_stored (_ ∷ t) = kept-last_stored t

    over-Remembers : (env : Env F) → Remembers (over env)
    unfolding over
    over-Remembers env t = kept-last_stored t

module _ {F S : Type 0} (storage : ChainStorage S) (first : S)
    (keeps : KeepsPositions storage first) where
  -- Out of debug mode, with reorg detection off or a StartBlock of at most 1, and a chain whose head is
  -- never below the block before StartBlock: over a storage that keeps positions, when GetLastBlock of
  -- the configured chain gives `n`, at any time in the life of an indexer, each block from the first
  -- one indexed to `n` has been handled.
  pub kept-Handled :
      (cfg : IndexerConfig) (env : Env F) (s s' : Indexer F) (n b : ℕ)
      → cfg.debug_mode ≡ false
      → (leb_ℤ cfg.reorg_depth (pos 0) ≡ true) ⊎ (cfg.start_block ≤ 1)
      → ((t : List (Call F)) (n : ℕ) → env.block_number t ≡ ok n → cfg.start_block ≤ n + 1)
      → s.calls ≡ []
      → Session cfg (over storage first cfg.chain env) s s'
      → storage.get_last_block cfg.chain (kept storage first cfg.chain s'.calls) ≡ ok n
      → first_block cfg env ≤ b
      → b ≤ n
      → Handled b s'.calls
  unfolding over first_position
  kept-Handled cfg env s s' n b real steady high e run answer l u =
      let env' = over storage first cfg.chain env in
      let j =
        Session-Justified cfg env' real steady (over-Remembers storage first cfg.chain keeps env)
          high s s' e run in
      let same : n ≡ last_stored s'.calls =
        ground (arith, sym (kept-last_stored storage first cfg.chain keeps s'.calls) ∙ answer) in
      Handled-last_stored cfg env' (first_block cfg env) s'.calls b j (omega arith) l (omega arith)
