-- ===== src/Indexer/Sync/Moves.antt =====
-- How a sync of indexer.go moves its position: a rewind, a reset and the blocks up to the head.
use go_block_walk.Prelude.{
  ℕ, ◌+◌, ◌≤◌, ◌≡◌, ◌⊎◌, inl, inr, subst, true, false, Option, none, some, Text, List, arith, ltb,
  leb, ◌==◌, ◌||◌,
}
use go_block_walk.Prelude.Int.{leb_ℤ, ltb_ℤ, pos}
use go_block_walk.Errors.{Result, ok, err}
use go_block_walk.Ports.{Header, Call, Env}
use go_block_walk.Indexer.Actions.{Indexer, pure, must, ◌>>=◌, ◌>>◌}
use go_block_walk.Indexer.{IndexerConfig, max_log_block_range, store_last_block, header_by_number}
use go_block_walk.Indexer.Handled.{Covered, Justified, Covered-le, Grows-Covered}
use go_block_walk.Indexer.Sound.{
  Sound, Sound-pure, Sound-if, Sound-bind, Sound-ask, Sound-gets, Sound-must, Sound_of_AfterRound,
}
use go_block_walk.Indexer.Sequential.{sync_blocks_sequential_lem}
use go_block_walk.Indexer.Batched.Coverage.{sync_blocks_batched-Sound}
use go_block_walk.Indexer.Sync.{
  rewind_target, prune_window, compare_hash, check_hash, detect_reorg_rewind, reset_if_behind,
  sync_range, sync_from,
}
use go_block_walk.Indexer.Sync.Positions.{
  first_block, Reached, Grows-Reached, Stored, store_last_block-Sound, rewind_target_le,
}

module _ {F : Type 0} (cfg : IndexerConfig) (env : Env F) where
  abbrev AtPosition : ℕ → List (Call F) → Type 0
  AtPosition p t = Reached cfg env p t

  prune_window-Sound :
      (b p : ℕ) (s : Indexer F)
      → Reached cfg env p s.calls
      → Sound (first_block cfg env) (prune_window cfg env b) s (λ _. AtPosition p)
  unfolding prune_window ◌>>=◌
  prune_window-Sound b p s r = record { at = r }

  must_store-Justified :
      (n : ℕ) (r : Result (Unit {0})) (t : List (Call F))
      → Stored cfg env n r t
      → Justified (first_block cfg env) t
  must_store-Justified n (ok u) t h = h.covered.justified
  must_store-Justified n (err e) t h = h

  -- The position is stored and becomes the one that the sync goes on from.
  move_to-Sound :
      (n : ℕ) (prefix : Text) (s : Indexer F)
      → cfg.debug_mode ≡ false
      → Covered (first_block cfg env) (n + 1) s.calls
      → Sound
          (first_block cfg env)
          (do r ← store_last_block cfg env n; must prefix r; prune_window cfg env n; pure n)
          s
          AtPosition
  move_to-Sound n prefix s real c =
      Sound-bind _ (Stored cfg env n) _ _ _ s (store_last_block-Sound cfg env n s real c) λ r s' h.
        Sound-bind _ (λ _. AtPosition n) _ _ _ s'
          (Sound-must _ _ prefix r s' (must_store-Justified n r s'.calls h)
            (λ u e. subst (λ x. Stored cfg env n x s'.calls) e h))
          λ _ s'' r'.
            Sound-bind _ (λ _. AtPosition n) _ _ _ s'' (prune_window-Sound n n s'' r')
              (λ _ s₃ r''. Sound-pure _ _ n s₃ r'')

  module _ (real : cfg.debug_mode ≡ false) where
    compare_hash-Sound :
        (last want : ℕ) (h : Header) (s : Indexer F)
        → rewind_target cfg env last ≤ last
        → Reached cfg env last s.calls
        → Sound (first_block cfg env) (compare_hash cfg env last want h) s AtPosition
    unfolding compare_hash
    compare_hash-Sound last want h s back r =
        Sound-if _ _ (h.hash == want) _ _ s (λ _. Sound-pure _ _ _ s r)
          (λ _.
            move_to-Sound _ _ s real
              (Covered-le _ _ (last + 1) s.calls (omega (arith, back)) r.covered))

    check_hash-Sound :
        (last : ℕ) (tracked : Option ℕ) (s : Indexer F)
        → rewind_target cfg env last ≤ last
        → Reached cfg env last s.calls
        → Sound (first_block cfg env) (check_hash cfg env last tracked) s AtPosition
    unfolding check_hash header_by_number
    check_hash-Sound last none s back r = Sound-pure _ _ last s r
    check_hash-Sound last (some want) s back r =
        Sound-bind _ (λ _. AtPosition last) _ _ _ s
          (Sound-ask _ _ _ _ s (λ a _. (Grows-Reached cfg env last).grow _ s.calls tt r))
          λ answer s' r'.
            Sound-bind _ (λ _. AtPosition last) _ _ _ s'
              (Sound-must _ _ _ answer s' r'.covered.justified (λ _ _. r'))
              (λ h s'' r''. compare_hash-Sound last want h s'' back r'')

    pub detect_reorg_rewind-Sound :
        (last : ℕ) (s : Indexer F)
        → (leb_ℤ cfg.reorg_depth (pos 0) ≡ true) ⊎ (cfg.start_block ≤ 1)
        → Reached cfg env last s.calls
        → Sound (first_block cfg env) (detect_reorg_rewind cfg env last) s AtPosition
    unfolding detect_reorg_rewind
    detect_reorg_rewind-Sound last s (inl off) r = rw off (Sound-pure _ _ last s r)
    detect_reorg_rewind-Sound last s (inr low) r =
        Sound-if _ _ (leb_ℤ cfg.reorg_depth (pos 0) || last == 0) _ _ s
          (λ _. Sound-pure _ _ last s r)
          λ on.
            Sound-bind _ (λ _. AtPosition last) _ _ _ s (Sound-gets _ _ _ s r)
              (λ tracked s' r'.
                check_hash-Sound last tracked s' (rewind_target_le cfg env last low (ground arith))
                  r')

    -- StartBlock was handled, if it is what a reset stores.
    pub reset_if_behind-Sound :
        (last current : ℕ) (s : Indexer F)
        → cfg.start_block ≤ current + 1
        → Reached cfg env last s.calls
        → Sound (first_block cfg env) (reset_if_behind cfg env last current) s AtPosition
    unfolding reset_if_behind
    reset_if_behind-Sound last current s low r =
        Sound-if _ _ (ltb current last) _ _ s
          (λ behind.
            move_to-Sound _ _ s real
              (Covered-le _ _ (last + 1) s.calls (ground (arith, behind)) r.covered))
          (λ _. Sound-pure _ _ last s r)

  -- Asking for the range limit keeps what was handled.
  limit-Sound :
      (lo hi : ℕ) (s : Indexer F)
      → Covered lo hi s.calls
      → Sound lo (max_log_block_range cfg env) s (λ _ t. Covered lo hi t)
  unfolding max_log_block_range
  limit-Sound lo hi s c = Sound-ask _ _ _ _ s (λ _ _. (Grows-Covered lo hi).grow _ s.calls tt c)

  sync_range-Sound :
      (rounds start current : ℕ) (s : Indexer F)
      → Covered (first_block cfg env) start s.calls
      → Sound
          (first_block cfg env)
          (sync_range cfg env rounds start current)
          s
          (λ _ t. Covered (first_block cfg env) (current + 1) t)
  unfolding sync_range
  sync_range-Sound rounds start current s c =
      let lo = first_block cfg env in
      Sound-bind lo (λ _ t. Covered lo start t) _ _ _ s (limit-Sound lo start s c)
        λ limit s' c'.
          Sound-if _ _ (ltb_ℤ (pos 1) limit) _ _ s'
            (λ _.
              Sound-bind lo (λ _ t. Covered lo start t) _ _ _ s' (limit-Sound lo start s' c')
                (λ _ s'' c''. sync_blocks_batched-Sound cfg env lo rounds start current s'' c''))
            (λ _.
              Sound_of_AfterRound lo _ _ s'
                (sync_blocks_sequential_lem cfg env lo rounds start current s' c'))

  pub sync_from-Sound :
      (rounds last current : ℕ) (s : Indexer F)
      → Reached cfg env last s.calls
      → Sound
          (first_block cfg env)
          (sync_from cfg env rounds last current)
          s
          (λ _ t. Covered (first_block cfg env) (current + 1) t)
  unfolding sync_from
  sync_from-Sound rounds last current s r =
      Sound-if _ _ (leb current last) _ _ s
        (λ over.
          Sound-pure _ _ tt s (Covered-le _ _ (last + 1) s.calls (ground (arith, over)) r.covered))
        (λ _.
          sync_range-Sound rounds _ current s
            (Covered-le _ _ (last + 1) s.calls (ground arith) r.covered))
