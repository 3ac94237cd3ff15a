-- ===== src/Indexer/Sync/Reset.antt =====
-- Where a sync of indexer.go begins: on a fresh start, and after a chain reset.
use go_block_walk.Prelude.{
  ℕ, ◌+◌, ◌-◌, ◌%◌, ◌≤◌, ◌<◌, ◌≡◌, true, false, ◌∷◌, arith, ltb, leb, ◌==◌, ◌∙◌,
}
use go_block_walk.Errors.{ok}
use go_block_walk.Ports.{Env, stored_last_block}
use go_block_walk.Hashes.{prune_hashes_above}
use go_block_walk.Indexer.Actions.{Indexer, done, ◌>>=◌}
use go_block_walk.Indexer.{IndexerConfig, u64, store_last_block}
use go_block_walk.Indexer.Sync.{first_position, reset_if_behind, sync_from, sync_range}

module _ {F : Type 0} (cfg : IndexerConfig) (env : Env F) where
  sync_from_lem :
      (rounds last current : ℕ) (s : Indexer F)
      → last < current
      → current < u64
      → sync_from cfg env rounds last current s ≡ sync_range cfg env rounds (last + 1) current s
  unfolding sync_from
  sync_from_lem rounds last current s l u =
      let a : leb current last ≡ false = ground arith in
      let m : (last + 1) % u64 ≡ last + 1 = omega arith in
      let z : (last + 1 == 0) ≡ false = ground arith in simp (a, m, z)

  -- A sync with nothing persisted begins at StartBlock (StartBlock positive and not beyond the head).
  pub fresh_sync :
      (rounds current : ℕ) (s : Indexer F)
      → 0 < cfg.start_block
      → cfg.start_block ≤ current
      → current < u64
      → sync_from cfg env rounds (first_position cfg env 0) current s
        ≡ sync_range cfg env rounds cfg.start_block current s
  unfolding first_position
  fresh_sync rounds current s p l u =
      let f : ltb 0 cfg.start_block ≡ true = ground arith in
      let e : cfg.start_block - 1 + 1 ≡ cfg.start_block = omega arith in
      simp f (sync_from_lem rounds (cfg.start_block - 1) current s (omega arith) u ∙ rw e)

  -- After a chain reset (the head is below the last block and above StartBlock, out of debug mode,
  -- and the storage takes StartBlock) the sync begins one block later than a fresh one, at
  -- StartBlock + 1: StartBlock is stored without having been processed again.
  pub reset_sync :
      (rounds last current : ℕ) (s : Indexer F)
      → current < last
      → cfg.start_block < current
      → current < u64
      → cfg.debug_mode ≡ false
      → env.store s.calls cfg.start_block ≡ ok tt
      → (reset_if_behind cfg env last current >>= λ p. sync_from cfg env rounds p current) s
        ≡ sync_range cfg env rounds (cfg.start_block + 1) current (record s {
          calls = stored_last_block cfg.start_block (ok tt) ∷ s.calls;
          window = prune_hashes_above cfg.start_block s.window;
        })
  unfolding reset_if_behind store_last_block ◌>>=◌
  reset_sync rounds last current s behind above u real stored =
      let b : ltb current last ≡ true = ground arith in
      simp (b, real, stored) (sync_from_lem rounds cfg.start_block current _ above u)

  -- A sync with nothing persisted and a StartBlock more than one block beyond the head (out of debug
  -- mode, and the storage takes StartBlock) asks for no block, stores StartBlock as processed and
  -- succeeds; a later sync, from StartBlock and with the head beyond it, begins at StartBlock + 1.
  pub ahead_sync :
      (rounds current later : ℕ) (s s' : Indexer F)
      → current + 1 < cfg.start_block
      → cfg.start_block < later
      → later < u64
      → cfg.debug_mode ≡ false
      → env.store s.calls cfg.start_block ≡ ok tt
      → ((reset_if_behind cfg env (first_position cfg env 0) current >>= λ p.
              sync_from cfg env rounds p current)
            s
          ≡ (
            done tt,
            record s {
              calls = stored_last_block cfg.start_block (ok tt) ∷ s.calls;
              window = prune_hashes_above cfg.start_block s.window;
            },
          ))
        × ((reset_if_behind cfg env (first_position cfg env cfg.start_block) later >>= λ p.
                sync_from cfg env rounds p later)
              s'
            ≡ sync_range cfg env rounds (cfg.start_block + 1) later s')
  unfolding first_position reset_if_behind store_last_block sync_from ◌>>=◌
  ahead_sync rounds current later s s' ahead above u real stored =
      let f : ltb 0 cfg.start_block ≡ true = ground arith in
      let z : (cfg.start_block == 0) ≡ false = ground arith in
      let b : ltb current (cfg.start_block - 1) ≡ true = ground arith in
      let n : ltb later cfg.start_block ≡ false = ground arith in
      let a : leb current cfg.start_block ≡ true = ground arith in
      (
        simp (f, b, a, real, stored),
        simp (z, n) (sync_from_lem rounds cfg.start_block later s' above u),
      )
