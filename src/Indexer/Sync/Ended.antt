-- ===== src/Indexer/Sync/Ended.antt =====
-- How a sync of indexer.go ends, over a storage that remembers what was stored.
use go_block_walk.Prelude.{
  ℕ, ◌+◌, ◌≤◌, ◌≡◌, ◌⊎◌, refl, sym, subst, Bool, true, false, List, ◌∙◌, arith,
}
use go_block_walk.Prelude.Int.{leb_ℤ, pos}
use go_block_walk.Prelude.{codes}
use go_block_walk.Errors.{Result, ok}
use go_block_walk.Ports.{Call, Env, got_last_block}
use go_block_walk.Exhaustion.{ExhaustionTracker, observe}
use go_block_walk.Indexer.Actions.{Indexer, ◌>>=◌, must}
use go_block_walk.Indexer.{IndexerConfig, get_last_block}
use go_block_walk.Indexer.Quiet.{Quiet, Quiet-ask, Quiet-pure, Quiet-if, Quiet-bind, Quiet-gets}
use go_block_walk.Indexer.Handled.{Covered, Justified, Grows-Justified}
use go_block_walk.Indexer.Post.{Post-quiet}
use go_block_walk.Indexer.Sound.{
  Sound, Sound-if, Sound-bind, Sound-Quiet, Sound-ask, Sound-must, Sound-prefixed, Sound-mono,
}
use go_block_walk.Indexer.Sync.{
  reset_if_behind, sync_from, first_position, on_exhaustion, observe_pool, sync_available,
  sync_blocks,
}
use go_block_walk.Indexer.Sync.Positions.{
  first_block, Remembers, Reached, Reached-first, Grows-Reached, last_stored,
}
use go_block_walk.Indexer.Sync.Moves.{
  detect_reorg_rewind-Sound, reset_if_behind-Sound, sync_from-Sound,
}

module _ {F : Type 0} (cfg : IndexerConfig) (env : Env F) where
  -- How a sync that returns no error ends: the pool had no provider, or all up to a block number
  -- that the chain answered was handled.
  pub data Ended (t : List (Call F)) : Type 0 where
    idle :
        (seen : List (Call F))
        → env.provider seen ≡ false
        → Justified (first_block cfg env) t
        → Ended t
    caught_up :
        (seen : List (Call F)) (current : ℕ)
        → env.block_number seen ≡ ok current
        → Covered (first_block cfg env) (current + 1) t
        → Ended t

  pub Ended-Justified : (t : List (Call F)) → Ended t → Justified (first_block cfg env) t
  Ended-Justified t (idle _ _ j) = j
  Ended-Justified t (caught_up _ _ _ c) = c.justified

  -- What a report of exhaustion comes from.
  record Observed (exhausted : Bool) (t : List (Call F)) : Type 0 where
    pub justified : Justified (first_block cfg env) t
    pub seen : List (Call F)
    pub refused : exhausted ≡ true → env.provider seen ≡ false

  observe-refused :
      (x : ExhaustionTracker) (available : Bool)
      → (observe x available).0 ≡ true
      → available ≡ false
  unfolding observe
  observe-refused x true e = ground arith
  observe-refused x false e = refl

  observe_pool-Sound :
      (s : Indexer F)
      → Justified (first_block cfg env) s.calls
      → Sound (first_block cfg env) (observe_pool cfg env) s Observed
  unfolding observe_pool ◌>>=◌
  observe_pool-Sound s j = record {
    at = record { justified = j; seen = s.calls; refused = λ e. observe-refused _ _ e };
  }

  on_exhaustion-Quiet : Quiet (on_exhaustion cfg env)
  unfolding on_exhaustion
  on_exhaustion-Quiet = Quiet-bind _ _ (Quiet-gets _) (λ n.
      Quiet-bind _ _ (Quiet-ask _ _ (λ _. tt))
        (λ waited. Quiet-if waited _ _ (Quiet-ask _ _ (λ _. tt)) (Quiet-pure tt)))

  module _ (real : cfg.debug_mode ≡ false)
      (steady : (leb_ℤ cfg.reorg_depth (pos 0) ≡ true) ⊎ (cfg.start_block ≤ 1))
      (remembers : Remembers env)
      (high : (t : List (Call F)) (n : ℕ)
        → env.block_number t ≡ ok n
        → cfg.start_block ≤ n + 1) where
    abbrev Known : Result ℕ → List (Call F) → Type 0
    Known r t = (r ≡ ok (last_stored t)) × Justified (first_block cfg env) t

    get_last_block-Sound :
        (s : Indexer F)
        → Justified (first_block cfg env) s.calls
        → Sound (first_block cfg env) (get_last_block cfg env) s Known
    unfolding get_last_block last_stored
    get_last_block-Sound s j =
        Sound-if _ _ cfg.debug_mode _ _ s (λ d. absurd (ground (arith, real, d)))
          (λ _. Sound-ask _ Known _ _ s (λ r e.
            (sym e ∙ remembers s.calls, (Grows-Justified _).grow (got_last_block r) s.calls tt j)))

    start :
        (n : ℕ) (t : List (Call F)) → Known (ok n) t → Reached cfg env (first_position cfg env n) t
    start n t k =
        subst (λ m. Reached cfg env (first_position cfg env m) t)
          (let e : n ≡ last_stored t = ground (arith, k.0) in sym e) (Reached-first cfg env t k.1)

    -- What the chain answered, with a position that was reached.
    record Asked (last : ℕ) (r : Result ℕ) (t : List (Call F)) : Type 0 where
      pub reached : Reached cfg env last t
      pub seen : List (Call F)
      pub answer : env.block_number seen ≡ r

    to_head-Sound :
        (rounds last : ℕ) (r : Result ℕ) (s : Indexer F)
        → Asked last r s.calls
        → Sound
            (first_block cfg env)
            (do
              current ← must (codes "failed to get latest block: ") r
              position ← reset_if_behind cfg env last current
              sync_from cfg env rounds position current)
            s
            (λ _. Ended)
    to_head-Sound rounds last r s a =
        Sound-bind _ (λ current. Asked last (ok current)) _ _ _ s
          (Sound-must _ _ _ r s a.reached.covered.justified
            (λ current e. subst (λ x. Asked last x s.calls) e a))
          λ current s' a'.
            Sound-bind _ (Reached cfg env) _ _ _ s'
              (reset_if_behind-Sound cfg env real last current s' (high a'.seen current a'.answer)
                a'.reached)
              λ position s'' r''.
                Sound-mono _ _ _ _ s'' (λ _ t c. caught_up a'.seen current a'.answer c)
                  (sync_from-Sound cfg env rounds position current s'' r'')

    sync_available-Sound :
        (rounds : ℕ) (s : Indexer F)
        → Justified (first_block cfg env) s.calls
        → Sound (first_block cfg env) (sync_available cfg env rounds) s (λ _. Ended)
    unfolding sync_available
    sync_available-Sound rounds s j =
        Sound-bind _ Known _ _ _ s (get_last_block-Sound s j) λ r s' k.
          Sound-bind _ (λ n. Known (ok n)) _ _ _ s'
            (Sound-must _ _ _ r s' k.1 (λ n e. subst (λ x. Known x s'.calls) e k))
            λ n s'' k'.
              Sound-bind _ (Reached cfg env) _ _ _ s''
                (Sound-prefixed _ _ _ _ s''
                  (detect_reorg_rewind-Sound cfg env real _ s'' steady (start n s''.calls k')))
                λ last s₃ r'.
                  Sound-bind _ (Asked last) _ _ _ s₃
                    (Sound-ask _ _ _ _ s₃ (λ answer e. record {
                      reached = (Grows-Reached cfg env last).grow _ s₃.calls tt r';
                      seen = s₃.calls;
                      answer = e;
                    }))
                    (λ answer s₄ a. to_head-Sound rounds last answer s₄ a)

    pub sync_blocks-Sound :
        (rounds : ℕ) (s : Indexer F)
        → Justified (first_block cfg env) s.calls
        → Sound (first_block cfg env) (sync_blocks cfg env rounds) s (λ _. Ended)
    unfolding sync_blocks
    sync_blocks-Sound rounds s j =
        Sound-bind _ Observed _ _ _ s (observe_pool-Sound s j) λ exhausted s' o.
          Sound-if _ _ exhausted _ _ s'
            (λ down.
              Sound-mono _ _ _ _ s' (λ _ t q. idle o.seen (o.refused down) q.1)
                (Sound-Quiet _ _ _ s' on_exhaustion-Quiet o.justified
                  (Post-quiet _ _ s' (Grows-Justified _) on_exhaustion-Quiet o.justified)))
            (λ _. sync_available-Sound rounds s' o.justified)
