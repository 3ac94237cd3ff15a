-- ===== src/Indexer/Sync/Reorg.antt =====
-- detectReorgRewind of indexer.go: how far it goes back, and what it leaves.
use go_block_walk.Prelude.{
  refl, none, inl, inr, ◌⊎◌, codes, ℕ, suc, ◌+◌, ◌≤◌, ◌<◌, ◌≡◌, ◌≢◌, false, some, ◌∷◌, arith, ◌==◌,
}
use go_block_walk.Prelude.Int.{pos, leb_ℤ}
use go_block_walk.Errors.{Result, ok, err, wrap, Result-cases}
use go_block_walk.Ports.{Header, Env, got_header, stored_last_block}
use go_block_walk.Hashes.{HashWindow}
use go_block_walk.Hashes.Window.{IsConsistent}
use go_block_walk.Hashes.Prune.{prune_hashes_above_lem}
use go_block_walk.Indexer.Actions.{Indexer, Outcome, done, failed, ◌>>=◌}
use go_block_walk.Indexer.{IndexerConfig, u64, header_by_number, store_last_block}
use go_block_walk.Indexer.Sync.{rewind_target, compare_hash, detect_reorg_rewind}

module _ {F : Type 0} (cfg : IndexerConfig) (env : Env F) where
  is_on : (depth : ℕ) → cfg.reorg_depth ≡ pos (suc depth) → leb_ℤ cfg.reorg_depth (pos 0) ≡ false
  is_on depth e = ground arith

  -- With detection on and a last block above 0 whose header can be fetched, when the hash recorded
  -- for it is the chain's, the position stands and nothing is stored.
  pub detect-match :
      (depth last : ℕ) (s : Indexer F) (h : Header)
      → cfg.reorg_depth ≡ pos (suc depth)
      → last ≢ 0
      → s.window.recent_hashes last ≡ some h.hash
      → env.header s.calls last ≡ ok h
      → detect_reorg_rewind cfg env last s
        ≡ (done last, record s { calls = got_header last (ok h) ∷ s.calls })
  unfolding detect_reorg_rewind compare_hash header_by_number ◌>>=◌
  detect-match depth last s h on nonzero tracked fetched =
      let e : leb_ℤ cfg.reorg_depth (pos 0) ≡ false = is_on depth on in
      let z : (last == 0) ≡ false = ground arith in simp (e, z, tracked, fetched) (ground arith)

  -- Where a rewind of at most `depth` blocks goes: back by `depth`, or to StartBlock where that is
  -- higher.
  abbrev pub IsTarget : ℕ → ℕ → ℕ → Type 0
  IsTarget depth last target =
      (cfg.start_block ≤ target)
      × (last ≤ target + depth)
      × ((target ≡ cfg.start_block) ⊎ (target + depth ≡ last))

  rewind_target-IsTarget :
      (depth last : ℕ)
      → cfg.reorg_depth ≡ pos depth
      → depth < u64
      → IsTarget depth last (rewind_target cfg env last)
  unfolding rewind_target
  rewind_target-IsTarget depth last e small = ground arith

  -- The window without the hashes above `target`.
  abbrev pub Forgets : ℕ → HashWindow → HashWindow → Type 0
  Forgets target w w' =
      IsConsistent w'
      × ((c : ℕ) → target < c → w'.recent_hashes c ≡ none)
      × ((c : ℕ) → c ≤ target → w'.recent_hashes c ≡ w.recent_hashes c)

  -- What a rewind comes to, by the storage's answer.
  abbrev pub Rewound : Result (Unit {0}) → ℕ → Indexer F → Outcome ℕ × Indexer F → Type 0
  Rewound (ok _) target s (r, s') =
      (r ≡ done target)
      × (s'.calls ≡ stored_last_block target (ok tt) ∷ s.calls)
      × (s'.exhaustion ≡ s.exhaustion)
      × Forgets target s.window s'.window
  Rewound (err e) target s (r, s') =
      (r ≡ failed (wrap (codes "failed to persist rewound last block after reorg: ") e))
      × (s'.calls ≡ stored_last_block target (err e) ∷ s.calls)
      × (s'.exhaustion ≡ s.exhaustion)
      × (s'.window ≡ s.window)

  compare_hash-Rewound :
      (last want : ℕ) (s : Indexer F) (h : Header)
      → cfg.debug_mode ≡ false
      → h.hash ≢ want
      → IsConsistent s.window
      → let target = rewind_target cfg env last in
        Rewound (env.store s.calls target) target s (compare_hash cfg env last want h s)
  unfolding compare_hash store_last_block ◌>>=◌
  compare_hash-Rewound last want s h real differs whole =
      let d : (h.hash == want) ≡ false = ground arith in
      let target = rewind_target cfg env last in
      elim (Result-cases (env.store s.calls target)) [
        | inl (u, e) ↦
            simp (d, real, e) ((refl, refl, refl, prune_hashes_above_lem target s.window whole))
        | inr (x, e) ↦ simp (d, real, e) (refl, refl, refl, refl)
      ]

  -- With detection on, out of debug mode, with a consistent window and a last block above 0 whose header
  -- can be fetched, when the hash recorded for it is not the chain's: the rewind goes ReorgDepth
  -- blocks back, or to StartBlock where that is higher. When the storage takes that position, the
  -- sync goes on from there, the hashes above it are forgotten, and those up to it stay; when the
  -- storage fails, so does the detection, and no hash is forgotten.
  pub detect-mismatch :
      (depth last want : ℕ) (s : Indexer F) (h : Header)
      → cfg.reorg_depth ≡ pos (suc depth)
      → suc depth < u64
      → cfg.debug_mode ≡ false
      → last ≢ 0
      → IsConsistent s.window
      → s.window.recent_hashes last ≡ some want
      → env.header s.calls last ≡ ok h
      → h.hash ≢ want
      → let fetched : Indexer F = record s { calls = got_header last (ok h) ∷ s.calls } in
        (target : ℕ) × IsTarget (suc depth) last target
        × Rewound
            (env.store fetched.calls target)
            target
            fetched
            (detect_reorg_rewind cfg env last s)
  unfolding detect_reorg_rewind header_by_number ◌>>=◌
  detect-mismatch depth last want s h on small real nonzero whole tracked fetched differs =
      let e : leb_ℤ cfg.reorg_depth (pos 0) ≡ false = is_on depth on in
      let z : (last == 0) ≡ false = ground arith in
      let s' : Indexer F = record s { calls = got_header last (ok h) ∷ s.calls } in
      (
        rewind_target cfg env last,
        rewind_target-IsTarget (suc depth) last on small,
        simp (e, z, tracked, fetched) (compare_hash-Rewound last want s' h real differs whole),
      )
