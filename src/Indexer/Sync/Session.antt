-- ===== src/Indexer/Sync/Session.antt =====
-- The syncs of an indexer.go Indexer one after the other, through errors and restarts, over a storage
-- that remembers what was stored.
use go_block_walk.Prelude.{
  ℕ, ◌+◌, ◌≤◌, ◌≡◌, ◌⊎◌, sym, subst, true, false, List, [], ◌∷◌, ◌++◌, arith,
}
use go_block_walk.Prelude.Int.{leb_ℤ, pos}
use go_block_walk.Errors.{ok}
use go_block_walk.Ports.{Call, Env, stored_last_block}
use go_block_walk.Hashes.{HashWindow}
use go_block_walk.Exhaustion.{ExhaustionTracker}
use go_block_walk.Indexer.Actions.{Indexer, Outcome, done, failed, spinning}
use go_block_walk.Indexer.{IndexerConfig}
use go_block_walk.Indexer.Handled.{Handled, Justified, Justified-split}
use go_block_walk.Indexer.Sound.{OnAny}
use go_block_walk.Indexer.Sync.{sync_blocks}
use go_block_walk.Indexer.Sync.Positions.{first_block, Remembers}
use go_block_walk.Indexer.Sync.Ended.{Ended, idle, caught_up, Ended-Justified, sync_blocks-Sound}

-- An indexer's life: any number of syncs, each with any rounds and ending in any way, and restarts,
-- which forget all but what the interfaces keep.
pub data Session {F : Type 0} (cfg : IndexerConfig) (env : Env F) (s : Indexer F)
    : Indexer F → Type 0 where
  created : Session cfg env s s
  synced :
      {s' : Indexer F} (rounds : ℕ)
      → Session cfg env s s'
      → Session cfg env s (sync_blocks cfg env rounds s').1
  restarted :
      {s' : Indexer F} (w : HashWindow) (x : ExhaustionTracker)
      → Session cfg env s s'
      → Session cfg env s (record s' { window = w; exhaustion = x })

module _ {F : Type 0} (cfg : IndexerConfig) (env : Env F) where
  finished_at :
      (head b : ℕ) (t : List (Call F))
      → ((t : List (Call F)) → env.provider t ≡ true)
      → ((t : List (Call F)) → env.block_number t ≡ ok head)
      → Ended cfg env t
      → first_block cfg env ≤ b
      → b ≤ head
      → Handled b t
  finished_at head b t up still (idle seen down j) l u = absurd (ground (arith, up seen, down))
  finished_at head b t up still (caught_up seen current answer c) l u =
      let e : head ≡ current = ground (arith, still seen, answer) in c.handled b l (omega arith)

  OnAny-Ended :
      (r : Outcome (Unit {0})) (t : List (Call F))
      → OnAny (first_block cfg env) (λ _. Ended cfg env) r t
      → Justified (first_block cfg env) t
  OnAny-Ended (done _) t q = Ended-Justified cfg env t q
  OnAny-Ended (failed e) t j = j
  OnAny-Ended spinning t j = j

  module _ (real : cfg.debug_mode ≡ false)
      (steady : (leb_ℤ cfg.reorg_depth (pos 0) ≡ true) ⊎ (cfg.start_block ≤ 1))
      (remembers : Remembers env)
      (high : (t : List (Call F)) (n : ℕ)
        → env.block_number t ≡ ok n
        → cfg.start_block ≤ n + 1) where
    pub Session-Justified :
        (s s' : Indexer F)
        → s.calls ≡ []
        → Session cfg env s s'
        → Justified (first_block cfg env) s'.calls
    Session-Justified s s' e created = subst (Justified (first_block cfg env)) (sym e) tt
    Session-Justified s _ e (synced {s'} rounds run) =
        let o = sync_blocks cfg env rounds s' in
        OnAny-Ended o.0 o.1.calls
          (sync_blocks-Sound cfg env real steady remembers high rounds s'
            (Session-Justified s s' e run)).at
    Session-Justified s _ e (restarted {s'} w x run) = Session-Justified s s' e run

    -- In the life of an indexer over a storage that remembers what was stored, out of debug mode, with
    -- reorg detection off or a StartBlock of at most 1, and a chain whose head is never below the block
    -- before StartBlock: whenever `SetLastBlock(n)` has succeeded, each block from the first one indexed
    -- (StartBlock, or 1 if that is 0) up to `n` had been handled before, over all the syncs, errors,
    -- chain resets and restarts so far.
    pub syncs-stored_after-Handled :
        (s s' : Indexer F) (before after : List (Call F)) (n b : ℕ)
        → s.calls ≡ []
        → Session cfg env s s'
        → s'.calls ≡ after ++ stored_last_block n (ok tt) ∷ before
        → first_block cfg env ≤ b
        → b ≤ n
        → Handled b before
    syncs-stored_after-Handled s s' before after n b e run split l u =
        Justified-split (first_block cfg env) after before n b
          (subst (Justified (first_block cfg env)) split (Session-Justified s s' e run)) l u

    -- In the life of an indexer over a storage that remembers what was stored, out of debug mode, with
    -- reorg detection off or a StartBlock of at most 1, a pool that has a provider, and a chain whose
    -- head stays at `head`, not below the block before StartBlock: when a sync returns no error, each
    -- block from the first one indexed up to the head has been handled.
    pub syncs-done-Handled :
        (rounds head b : ℕ) (s s' : Indexer F)
        → ((t : List (Call F)) → env.provider t ≡ true)
        → ((t : List (Call F)) → env.block_number t ≡ ok head)
        → s.calls ≡ []
        → Session cfg env s s'
        → (sync_blocks cfg env rounds s').0 ≡ done tt
        → first_block cfg env ≤ b
        → b ≤ head
        → Handled b (sync_blocks cfg env rounds s').1.calls
    syncs-done-Handled rounds head b s s' up still e run d l u =
        let o = sync_blocks cfg env rounds s' in
        finished_at head b o.1.calls up still
          (subst (λ r. OnAny (first_block cfg env) (λ _. Ended cfg env) r o.1.calls) d
            (sync_blocks-Sound cfg env real steady remembers high rounds s'
              (Session-Justified s s' e run)).at)
          l u
