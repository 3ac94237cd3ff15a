-- ===== src/Indexer/Sync/Success.antt =====
-- A whole sync of indexer.go succeeds and comes to the head, if the interfaces answer.
use go_block_walk.Prelude.{
  ℕ, ◌+◌, ◌*◌, ◌≤◌, ◌<◌, ◌≡◌, ◌⊎◌, refl, true, false, Option, none, some, List, [], arith, ltb, leb,
  ◌==◌, ◌||◌, sym, subst,
}
use go_block_walk.Prelude.Int.{leb_ℤ, ltb_ℤ, pos}
use go_block_walk.Errors.{ok}
use go_block_walk.Exhaustion.{observe}
use go_block_walk.Ports.{Call, Env, Header}
use go_block_walk.Indexer.Actions.{Indexer, Exec, done, ◌>>=◌}
use go_block_walk.Indexer.{IndexerConfig, u64, get_last_block, max_log_block_range}
use go_block_walk.Indexer.Handled.{Handled}
use go_block_walk.Indexer.Works.{
  IsOk, Works, Unfailing, Works-pure, Works-ask, Unfailing-gets, Unfailing-must, Works-must,
  Works-if, Works-prefixed, Unfailing-set_window, Works-bind, Works-then, Unfailing-Halts,
  Unfailing-done,
}
use go_block_walk.Indexer.Success.{
  Serves, Works-store_last_block, Works-header_by_number, Unfailing-sync_blocks_sequential,
}
use go_block_walk.Indexer.Termination.{Halts-sync_blocks_sequential}
use go_block_walk.Indexer.Batched.Spans.{IsSized}
use go_block_walk.Indexer.Batched.Rounds.{mul_step}
use go_block_walk.Indexer.Batched.Termination.{Halts-sync_blocks_batched}
use go_block_walk.Indexer.Batched.Success.{Unfailing-sync_blocks_batched}
use go_block_walk.Indexer.Sync.Positions.{Remembers, first_block}
use go_block_walk.Indexer.Sync.Session.{Session, syncs-done-Handled}
use go_block_walk.Indexer.Sync.{
  prune_window, compare_hash, check_hash, detect_reorg_rewind, observe_pool, reset_if_behind,
  sync_range, sync_from, sync_available, sync_blocks,
}

-- It succeeds from every state.
abbrev Succeeds : {F A : Type 0} → Exec F A → Type 0
Succeeds m = Unfailing ⊥ m

module _ {F : Type 0} (cfg : IndexerConfig) (env : Env F) (serves : Serves cfg env) where
  prune_window-Succeeds : (b : ℕ) → Succeeds (prune_window cfg env b)
  unfolding prune_window
  prune_window-Succeeds b = Works-then _ _ _ (Unfailing-gets _) (λ w. Unfailing-set_window _)

  compare_hash-Succeeds : (last want : ℕ) (h : Header) → Succeeds (compare_hash cfg env last want h)
  unfolding compare_hash
  compare_hash-Succeeds last want h =
      Works-if _ (h.hash == want) _ _ (λ _. Works-pure _ _ tt)
        λ _. Works-bind _ _ _ _ (Works-store_last_block ⊥ cfg env serves _) λ r g.
          Works-then _ _ _ (Unfailing-must _ r g)
            λ _. Works-then _ _ _ (prune_window-Succeeds _) (λ _. Works-pure _ _ tt)

  check_hash-Succeeds : (last : ℕ) (o : Option ℕ) → Succeeds (check_hash cfg env last o)
  unfolding check_hash
  check_hash-Succeeds last none = Works-pure _ _ tt
  check_hash-Succeeds last (some want) =
      Works-bind _ _ _ _ (Works-header_by_number ⊥ cfg env serves last)
        λ r g. Works-then _ _ _ (Unfailing-must _ r g) (compare_hash-Succeeds last want)

  detect_reorg_rewind-Succeeds : (last : ℕ) → Succeeds (detect_reorg_rewind cfg env last)
  unfolding detect_reorg_rewind
  detect_reorg_rewind-Succeeds last =
      Works-if _ (leb_ℤ cfg.reorg_depth (pos 0) || last == 0) _ _ (λ _. Works-pure _ _ tt)
        (λ _. Works-then _ _ _ (Unfailing-gets _) (check_hash-Succeeds last))

  reset_if_behind-Succeeds : (last current : ℕ) → Succeeds (reset_if_behind cfg env last current)
  unfolding reset_if_behind
  reset_if_behind-Succeeds last current =
      Works-if _ (ltb current last) _ _
        (λ _. Works-bind _ _ _ _ (Works-store_last_block ⊥ cfg env serves _) λ r g.
          Works-then _ _ _ (Unfailing-must _ r g)
            λ _. Works-then _ _ _ (prune_window-Succeeds _) (λ _. Works-pure _ _ tt))
        (λ _. Works-pure _ _ tt)

  get_last_block-Works : Works ⊥ (get_last_block cfg env) IsOk
  unfolding get_last_block
  get_last_block-Works =
      Works-if _ cfg.debug_mode _ _ (λ _. Works-pure _ (ok 0) tt)
        (λ _. Works-ask _ _ _ serves.last_block)

  module _ (head rounds : ℕ) (sized : IsSized cfg env head) (small : head + 2 < u64)
      (enough : (head + 2) * (head + 3) ≤ rounds) where
    sync_range-Succeeds : (start : ℕ) → Succeeds (sync_range cfg env rounds start head)
    unfolding sync_range max_log_block_range
    sync_range-Succeeds start = Works-then _ _ _ (Works-ask _ _ _ (λ _. tt)) λ limit.
        Works-if _ (ltb_ℤ (pos 1) limit) _ _
          (λ _. Works-then _ _ _ (Works-ask _ _ _ (λ _. tt)) (λ _.
            Unfailing-Halts _ (Unfailing-sync_blocks_batched cfg env serves rounds start head) (
              Halts-sync_blocks_batched cfg env rounds (head + 1) start head sized (omega arith)
                small (omega arith))))
          (λ _.
            Unfailing-Halts _ (Unfailing-sync_blocks_sequential cfg env serves rounds start head) (
              Halts-sync_blocks_sequential cfg env rounds start head (omega arith)
                (omega (arith, mul_step cfg env (head + 3) 0 (head + 2) (omega arith)))))

    sync_from-Succeeds : (last : ℕ) → Succeeds (sync_from cfg env rounds last head)
    unfolding sync_from
    sync_from-Succeeds last =
        Works-if _ (leb head last) _ _ (λ _. Works-pure _ _ tt) (λ _. sync_range-Succeeds _)

    module _ (still : (t : List (Call F)) → env.block_number t ≡ ok head)
        (up : (t : List (Call F)) → env.provider t ≡ true) where
      sync_available-Succeeds : Succeeds (sync_available cfg env rounds)
      unfolding sync_available
      sync_available-Succeeds = Works-bind _ _ _ _ get_last_block-Works λ r g.
          Works-then _ _ _ (Unfailing-must _ r g) λ persisted.
            Works-then _ _ _ (Works-prefixed _ _ _ (detect_reorg_rewind-Succeeds _)) λ last.
              Works-bind (λ a. a ≡ ok head) _ _ _ (Works-ask _ _ _ still)
                λ answer e.
                  Works-bind (λ n. n ≡ head) _ _ _
                    (Works-must _ _ answer (subst IsOk (sym e) tt) (λ n q. ground (arith, e, q)))
                    λ current same.
                      Works-then _ _ _ (reset_if_behind-Succeeds last current) (λ position.
                        subst (λ n. Succeeds (sync_from cfg env rounds position n)) (sym same)
                          (sync_from-Succeeds position))

      observe_pool-up : Works ⊥ (observe_pool cfg env) (λ exhausted. exhausted ≡ false)
      unfolding observe_pool observe ◌>>=◌
      observe_pool-up = record { at = λ s. rw (up s.calls) refl }

      sync_blocks-Succeeds : Succeeds (sync_blocks cfg env rounds)
      unfolding sync_blocks
      sync_blocks-Succeeds =
          Works-bind (λ exhausted. exhausted ≡ false) _ _ _ observe_pool-up
            (λ exhausted no. rw no sync_available-Succeeds)

  pub sync_blocks-done :
      (head rounds : ℕ) (s : Indexer F)
      → IsSized cfg env head
      → head + 2 < u64
      → (head + 2) * (head + 3) ≤ rounds
      → ((t : List (Call F)) → env.block_number t ≡ ok head)
      → ((t : List (Call F)) → env.provider t ≡ true)
      → (sync_blocks cfg env rounds s).0 ≡ done tt
  sync_blocks-done head rounds s sized small enough still up =
      Unfailing-done _ s (sync_blocks-Succeeds head rounds sized small enough still up)

  -- In the life of an indexer over a storage that remembers what was stored, out of debug mode, with
  -- reorg detection off or a StartBlock of at most 1: when the pool has a provider, the head of the chain
  -- stays at `head` (below 2 ^ 64 - 2 and not below the block before StartBlock), every call is answered
  -- but for ranges of two blocks and more that are rejected as too large, and the sizes that the pool
  -- names do not wrap around, then a sync returns no error within (head + 2) * (head + 3) rounds of its
  -- loop, and each block from the first one indexed to the head has been handled.
  pub sync-catches_up :
      (head rounds : ℕ) (s s' : Indexer F)
      → cfg.debug_mode ≡ false
      → (leb_ℤ cfg.reorg_depth (pos 0) ≡ true) ⊎ (cfg.start_block ≤ 1)
      → cfg.start_block ≤ head + 1
      → Remembers env
      → IsSized cfg env head
      → head + 2 < u64
      → (head + 2) * (head + 3) ≤ rounds
      → ((t : List (Call F)) → env.block_number t ≡ ok head)
      → ((t : List (Call F)) → env.provider t ≡ true)
      → s.calls ≡ []
      → Session cfg env s s'
      → ((sync_blocks cfg env rounds s').0 ≡ done tt)
        × ((b : ℕ)
            → first_block cfg env ≤ b
            → b ≤ head
            → Handled b (sync_blocks cfg env rounds s').1.calls)
  sync-catches_up head rounds s s' real steady low remembers sized small enough still up e run =
      let d = sync_blocks-done head rounds s' sized small enough still up in
      let high : (t : List (Call F)) (n : ℕ) → env.block_number t ≡ ok n → cfg.start_block ≤ n + 1 =
        λ t n q. let same : head ≡ n = ground (arith, still t, q) in omega arith in
      (
        d,
        λ b l u.
            syncs-done-Handled cfg env real steady remembers high rounds head b s s' up still e run
              d l u,
      )
