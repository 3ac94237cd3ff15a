-- ===== src/Indexer/Batched/Coverage.antt =====
-- The batched path of indexer.go never reports a block as processed that was not.
use go_block_walk.Prelude.{
  ℕ, zero, suc, ◌+◌, ◌%◌, ◌≤◌, ◌≡◌, refl, inl, Option, none, some, List, [], ◌∷◌, In, here, arith,
  leb, ltb, ◌&&◌, ◌++◌, subst,
}
use go_block_walk.Errors.{Result, ok, err}
use go_block_walk.Dispatcher.{Log}
use go_block_walk.Ports.{Call, Env, stored_last_block, got_range_logs}
use go_block_walk.Indexer.Actions.{Indexer, done}
use go_block_walk.Indexer.{IndexerConfig, u64}
use go_block_walk.Indexer.Batched.{
  Cursor, choose_size, after_fetch, single_round, after_parallel, sync_one_chunk, sync_chunks,
  sync_blocks_batched, is_too_large, chunk_end_for,
}
use go_block_walk.Indexer.Quiet.{
  Quiet, Quiet-pure, Quiet-if, Quiet-bind, Quiet-ask, Quiet-max_log_block_range,
}
use go_block_walk.Indexer.Handled.{
  Handled, Covered, Justified, Covered-le, Covered-empty, Justified-split, Grows-Covered,
}
use go_block_walk.Indexer.Post.{Post-ask, Post-quiet}
use go_block_walk.Indexer.Sound.{
  Sound, Sound-pure, Sound-spin, Sound-fail, Sound-if, Sound-Quiet, Sound-bind, Sound-Justified,
  Sound-done,
}
use go_block_walk.Indexer.Batched.Fetches.{Served, apply_batch_chunk-Sound, parallel_round-Sound}

module _ {F : Type 0} (cfg : IndexerConfig) (env : Env F) where
  abbrev At : ℕ → Cursor → List (Call F) → Type 0
  At lo c t = Covered lo c.chunk_start t

  -- The next chunk begins behind the last block of this one, or at 0 when that sum wraps.
  next_start :
      (lo to : ℕ) (t : List (Call F)) → Covered lo (to + 1) t → Covered lo ((to + 1) % u64) t
  next_start lo to t c = Covered-le lo ((to + 1) % u64) (to + 1) t (omega arith) c

  after_fetch-Sound :
      (lo size to : ℕ) (c : Cursor) (r : Result (List Log)) (s : Indexer F)
      → At lo c s.calls
      → In (got_range_logs c.chunk_start to r) s.calls
      → Sound lo (after_fetch cfg env c size to r) s (At lo)
  unfolding after_fetch
  after_fetch-Sound lo size to c (ok logs) s h i =
      Sound-bind lo (λ _ t. Covered lo (to + 1) t) _ _ _ s
        (apply_batch_chunk-Sound cfg env lo c.chunk_start to logs s (h, inl i))
        (λ _ s' c'. Sound-pure lo (At lo) _ s' (next_start lo to s'.calls c'))
  after_fetch-Sound lo size to c (err e) s h i =
      Sound-if lo _ (is_too_large cfg env e && ltb c.chunk_start to) _ _ s
        (λ _. Sound-pure lo (At lo) _ s h) (λ _. Sound-fail lo _ _ s h.justified)

  Quiet-choose_size : (c : Cursor) → Quiet (choose_size cfg env c)
  unfolding choose_size
  Quiet-choose_size c =
      Quiet-if c.retrying _ _ (Quiet-pure _)
        (Quiet-bind _ _ (Quiet-max_log_block_range cfg env) (λ _. Quiet-pure _))

  single_round-Sound :
      (lo current : ℕ) (c : Cursor) (s : Indexer F)
      → At lo c s.calls
      → Sound lo (single_round cfg env c current) s (At lo)
  unfolding single_round
  single_round-Sound lo current c s h =
      Sound-bind lo (λ _ t. At lo c t × Justified lo t) _ _ _ s
        (Sound-Quiet lo _ _ s (Quiet-choose_size c) h.justified
          (Post-quiet _ _ s (Grows-Covered lo c.chunk_start) (Quiet-choose_size c) h))
        λ size s' h'.
          let to = chunk_end_for cfg env c.chunk_start size current in
          Sound-bind lo
            (λ r t. (At lo c t × In (got_range_logs c.chunk_start to r) t) × Justified lo t) _ _ _
            s'
            (Sound-Quiet lo _ _ s' (Quiet-ask _ _ (λ _. tt)) h'.1 (
              Post-ask _ _ _ s'
                (λ r. ((Grows-Covered lo c.chunk_start).grow _ s'.calls tt h'.0, here refl))))
            (λ r s'' h''. after_fetch-Sound lo size to c r s'' h''.0.0 h''.0.1)

  after_parallel-Sound :
      (lo current : ℕ) (c : Cursor) (o : Option ℕ) (s : Indexer F)
      → Served cfg env lo c.chunk_start o s.calls
      → Sound lo (after_parallel cfg env c current o) s (At lo)
  unfolding after_parallel
  after_parallel-Sound lo current c none s h = single_round-Sound lo current c s h
  after_parallel-Sound lo current c (some to) s h =
      Sound-pure lo (At lo) _ s (next_start lo to s.calls h)

  sync_one_chunk-Sound :
      (lo current : ℕ) (c : Cursor) (s : Indexer F)
      → At lo c s.calls
      → Sound lo (sync_one_chunk cfg env c current) s (At lo)
  unfolding sync_one_chunk
  sync_one_chunk-Sound lo current c s h =
      Sound-bind lo (Served cfg env lo c.chunk_start) _ _ _ s
        (parallel_round-Sound cfg env lo c.chunk_start current s h)
        (λ o s' h'. after_parallel-Sound lo current c o s' h')

  abbrev pub Finished : ℕ → ℕ → List (Call F) → Type 0
  Finished lo current t = Covered lo (current + 1) t

  sync_chunks-Sound :
      (lo rounds current : ℕ) (c : Cursor) (s : Indexer F)
      → At lo c s.calls
      → Sound lo (sync_chunks cfg env rounds c current) s (λ _. Finished lo current)
  unfolding sync_chunks
  sync_chunks-Sound lo zero current c s h =
      Sound-if lo _ (leb c.chunk_start current) _ _ s (λ _. Sound-spin lo _ s h.justified)
        (λ over.
          Sound-pure lo _ tt s
            (Covered-le lo (current + 1) c.chunk_start s.calls (ground (arith, over)) h))
  sync_chunks-Sound lo (suc rounds) current c s h =
      Sound-if lo _ (leb c.chunk_start current) _ _ s
        (λ _.
          Sound-bind lo (At lo) _ _ _ s (sync_one_chunk-Sound lo current c s h)
            (λ c' s' h'. sync_chunks-Sound lo rounds current c' s' h'))
        (λ over.
          Sound-pure lo _ tt s
            (Covered-le lo (current + 1) c.chunk_start s.calls (ground (arith, over)) h))

  -- From a position up to which all was handled, the loop goes on to `current`.
  pub sync_blocks_batched-Sound :
      (lo rounds start current : ℕ) (s : Indexer F)
      → Covered lo start s.calls
      → Sound lo (sync_blocks_batched cfg env rounds start current) s (λ _. Finished lo current)
  unfolding sync_blocks_batched
  sync_blocks_batched-Sound lo rounds start current s c =
      Sound-bind lo (λ _ t. Covered lo start t × Justified lo t) _ _ _ s
        (Sound-Quiet lo _ _ s (Quiet-max_log_block_range cfg env) c.justified
          (Post-quiet _ _ s (Grows-Covered lo start) (Quiet-max_log_block_range cfg env) c))
        (λ limit s' h. sync_chunks-Sound lo rounds current _ s' h.0)

  batched-Sound :
      (rounds start current : ℕ) (s : Indexer F)
      → s.calls ≡ []
      → Sound start
          (sync_blocks_batched cfg env rounds start current)
          s
          (λ _. Finished start current)
  batched-Sound rounds start current s e =
      sync_blocks_batched-Sound start rounds start current s (Covered-empty start s e)

  -- In a batched sync from `start`, with no calls before it, when `SetLastBlock(n)` has succeeded,
  -- each block from `start` to `n` had been handled by the calls before it, whatever the interfaces
  -- do and however the sync ends.
  pub batched-stored_after-Handled :
      (rounds start current : ℕ) (s : Indexer F) (before after : List (Call F)) (n b : ℕ)
      → s.calls ≡ []
      → (sync_blocks_batched cfg env rounds start current s).1.calls
        ≡ after ++ stored_last_block n (ok tt) ∷ before
      → start ≤ b
      → b ≤ n
      → Handled b before
  batched-stored_after-Handled rounds start current s before after n b e split l u =
      Justified-split start after before n b
        (subst (Justified start) split
          (Sound-Justified start _ s (batched-Sound rounds start current s e)))
        l u

  -- A batched sync, with no calls before it, that returns no error has handled every block from
  -- `start` to `current`.
  pub batched-done :
      (rounds start current : ℕ) (s : Indexer F) (b : ℕ)
      → s.calls ≡ []
      → (sync_blocks_batched cfg env rounds start current s).0 ≡ done tt
      → start ≤ b
      → b ≤ current
      → Handled b (sync_blocks_batched cfg env rounds start current s).1.calls
  batched-done rounds start current s b e d l u =
      (Sound-done start _ s d (batched-Sound rounds start current s e)).handled b l (omega arith)
