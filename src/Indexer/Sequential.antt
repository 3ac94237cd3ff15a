-- ===== src/Indexer/Sequential.antt =====
-- The block-by-block path of indexer.go never reports a block as processed that was not.
use go_block_walk.Prelude.{
  ℕ, zero, suc, ◌+◌, ◌%◌, ◌≤◌, ◌≡◌, refl, inl, inr, true, some, codes, List, [], ◌∷◌, In, here,
  there, arith, Bool-cases, leb,
}
use go_block_walk.Errors.{GoError, wrap, ok, err, is_local_decode_error, Result-cases}
use go_block_walk.Dispatcher.{Log}
use go_block_walk.Ports.{
  Header, Call, Env, stored_last_block, got_header, got_block_logs, dispatched,
}
use go_block_walk.Hashes.{record_block_hash}
use go_block_walk.Indexer.Actions.{
  Indexer, Outcome, done, failed, spinning, caught, continue, ◌>>=◌, ◌>>◌,
}
use go_block_walk.Indexer.{
  IndexerConfig, u64, about_block, dispatch_log, store_last_block, save_progress, dispatch_all,
  process_block, skip_or_fail, sync_one_block, sync_blocks_sequential,
}
use go_block_walk.Indexer.Contexts.{decode_error-header, decode_error-logs, decode_error-dispatch}
use go_block_walk.Indexer.Quiet.{
  Quiet, Quiet-bind, Quiet-must, Quiet-ask, Quiet-header_by_number, Quiet-record_hash,
  Quiet-dispatch_all, Quiet-persist_provider_state,
}
use go_block_walk.Indexer.Handled.{
  Delivered, at_header, at_logs, at_dispatch, Handled, by_block, by_skip, Covered, Handled-cons,
  Grows-In, Grows-Covered, AfterRound, AfterRound-of_Covered, Covered-suc, Covered-le, Handled-upto,
}

module _ {F : Type 0} (cfg : IndexerConfig) (env : Env F) where
  -- A log that the dispatcher refused, with the error that came of it.
  abbrev Refused : ℕ → List Log → GoError → List (Call F) → Type 0
  Refused b logs e t =
      (l : Log) × (time : ℕ) × (e' : GoError) × In l logs
      × In (dispatched l time (err e')) t
      × (e ≡ wrap (about_block (codes "failed to dispatch log for block ") b) e')

  abbrev AfterDispatch : ℕ → ℕ → List Log → Outcome (Unit {0}) → List (Call F) → Type 0
  AfterDispatch b time logs (done _) t = Delivered time logs t
  AfterDispatch b time logs (failed e) t = Refused b logs e t
  AfterDispatch b time logs spinning t = ⊥

  AfterDispatch-cons :
      (b time : ℕ) (l : Log) (ls : List Log) (r : Outcome (Unit {0})) (t : List (Call F))
      → In (dispatched l time (ok tt)) t
      → AfterDispatch b time ls r t
      → AfterDispatch b time (l ∷ ls) r t
  AfterDispatch-cons b time l ls (done _) t i d = (i, d)
  AfterDispatch-cons b time l ls (failed e) t i (x, time', e', m, j, q) =
      (x, time', e', there m, j, q)
  AfterDispatch-cons b time l ls spinning t i d = d

  dispatch_all_lem :
      (b time : ℕ) (ls : List Log) (s : Indexer F)
      → AfterDispatch b time ls
          (dispatch_all cfg env b time ls s).0
          (dispatch_all cfg env b time ls s).1.calls
  unfolding dispatch_all dispatch_log ◌>>=◌
  dispatch_all_lem b time [] s = tt
  dispatch_all_lem b time (l ∷ ls) s = elim (Result-cases (env.dispatch s.calls l time)) [
    | inl (u, e) ↦
        let s' : Indexer F = record s { calls = dispatched l time (ok tt) ∷ s.calls } in
        rw e (
          AfterDispatch-cons b time l ls _ _
            ((Quiet-dispatch_all cfg env b time ls).at _ (Grows-In (dispatched l time (ok tt))) s'
              (here refl))
            (dispatch_all_lem b time ls s'))
    | inr (x, e) ↦ rw e (l, time, x, here refl, here refl, refl)
  ]

  abbrev AfterBlock : ℕ → Outcome (Unit {0}) → List (Call F) → Type 0
  AfterBlock b (done _) t = Handled b t
  AfterBlock b (failed e) t = is_local_decode_error (some e) ≡ true → Handled b t
  AfterBlock b spinning t = ⊥

  AfterBlock-of_dispatch :
      (b : ℕ) (h : Header) (logs : List Log) (r : Outcome (Unit {0})) (t : List (Call F))
      → In (got_header b (ok h)) t
      → In (got_block_logs b (ok logs)) t
      → AfterDispatch b h.time logs r t
      → AfterBlock b r t
  AfterBlock-of_dispatch b h logs (done _) t i j d = by_block h logs i j d
  AfterBlock-of_dispatch b h logs (failed e) t i j (l, time, e', m, k, q) =
      λ d. by_skip e' (at_dispatch l time logs j m k) (decode_error-dispatch b e' (rw q at d))
  AfterBlock-of_dispatch b h logs spinning t i j d = elim d [ ]

  process_block_lem :
      (b : ℕ) (s : Indexer F)
      → AfterBlock b (process_block cfg env b s).0 (process_block cfg env b s).1.calls
  unfolding process_block ◌>>=◌
  process_block_lem b s = elim (Result-cases (env.header s.calls b)) [
    | inl (h, e) ↦
        let s' : Indexer F = record s {
          calls = got_header b (ok h) ∷ s.calls;
          window = record_block_hash cfg.reorg_depth b h.hash s.window;
        } in
        rw e (elim (Result-cases (env.block_logs s'.calls b)) [
          | inl (logs, e') ↦
              let s'' : Indexer F = record s' { calls = got_block_logs b (ok logs) ∷ s'.calls } in
              let keeps = Quiet-dispatch_all cfg env b h.time logs in
              rw e' (
                AfterBlock-of_dispatch b h logs _ _
                  (keeps.at _ (Grows-In (got_header b (ok h))) s'' (there (here refl)))
                  (keeps.at _ (Grows-In (got_block_logs b (ok logs))) s'' (here refl))
                  (dispatch_all_lem b h.time logs s''))
          | inr (x, e') ↦ rw e' (λ d. by_skip x (at_logs (here refl)) (decode_error-logs b x d))
        ])
    | inr (x, e) ↦ rw e (λ d. by_skip x (at_header (here refl)) (decode_error-header b x d))
  ]

  Quiet-process_block : (b : ℕ) → Quiet (process_block cfg env b)
  unfolding process_block
  Quiet-process_block b = Quiet-bind _ _ (Quiet-header_by_number cfg env b) λ r.
      Quiet-bind _ _ (Quiet-must _ r) λ h. Quiet-bind _ _ (Quiet-record_hash cfg env b h.hash) λ _.
        Quiet-bind _ _ (Quiet-ask _ _ (λ _. tt))
          λ r'. Quiet-bind _ _ (Quiet-must _ r') λ logs. Quiet-dispatch_all cfg env b h.time logs

  -- Storing position `b` once all of `lo` … `b` are handled.
  pub save_progress_lem :
      (lo b next : ℕ) (s : Indexer F)
      → ((x : ℕ) → lo ≤ x → x ≤ b → Handled x s.calls)
      → Covered lo next s.calls
      → AfterRound lo next (save_progress cfg env b s).0 (save_progress cfg env b s).1.calls
  unfolding save_progress store_last_block ◌>>=◌
  save_progress_lem lo b next s h c = elim (Bool-cases cfg.debug_mode) [
    | inl on ↦ simp on (
        AfterRound-of_Covered lo next _ _
          ((Quiet-persist_provider_state cfg env).at _ (Grows-Covered lo next) s c))
    | inr off ↦ simp off (elim (Result-cases (env.store s.calls b)) [
      | inl (u, e) ↦ rw e (
          AfterRound-of_Covered lo next _ _ (
            (Quiet-persist_provider_state cfg env).at _ (Grows-Covered lo next)
              (record s { calls = stored_last_block b (ok tt) ∷ s.calls })
              (record {
                justified = (h, c.justified);
                handled = λ x l u. Handled-cons _ (c.handled x l u);
              })))
      | inr (x, e) ↦ rw e c.justified
    ])
  ]

  sync_one_block_from :
      (lo b : ℕ) (o : Outcome (Unit {0})) (s : Indexer F)
      → AfterBlock b o s.calls
      → Covered lo b s.calls
      → let (r, s') =
          continue (caught o) (λ r. skip_or_fail cfg env b r >> save_progress cfg env b) s in
        AfterRound lo (b + 1) r s'.calls
  unfolding skip_or_fail ◌>>=◌
  sync_one_block_from lo b (done _) s h c =
      let c' = Covered-suc lo b s.calls h c in
      save_progress_lem lo b (b + 1) s (Handled-upto lo b s.calls c') c'
  sync_one_block_from lo b (failed e) s h c = elim (Bool-cases (is_local_decode_error (some e))) [
    | inl skip ↦
        let c' = Covered-suc lo b s.calls (h skip) c in
        rw skip (save_progress_lem lo b (b + 1) s (Handled-upto lo b s.calls c') c')
    | inr stop ↦ rw stop c.justified
  ]
  sync_one_block_from lo b spinning s h c = c.justified

  sync_one_block_lem :
      (lo b : ℕ) (s : Indexer F)
      → Covered lo b s.calls
      → AfterRound lo (b + 1) (sync_one_block cfg env b s).0 (sync_one_block cfg env b s).1.calls
  unfolding sync_one_block ◌>>=◌
  sync_one_block_lem lo b s c =
      sync_one_block_from lo b _ _ (process_block_lem b s)
        ((Quiet-process_block b).at _ (Grows-Covered lo b) s c)

  loop_from :
      (lo b rounds current : ℕ) (o : Outcome (Unit {0})) (s : Indexer F)
      → ((s : Indexer F)
          → Covered lo ((b + 1) % u64) s.calls
          → let (r, s') = sync_blocks_sequential cfg env rounds ((b + 1) % u64) current s in
            AfterRound lo (current + 1) r s'.calls)
      → AfterRound lo (b + 1) o s.calls
      → let (r, s') =
          continue o (λ _. sync_blocks_sequential cfg env rounds ((b + 1) % u64) current) s in
        AfterRound lo (current + 1) r s'.calls
  loop_from lo b rounds current (done _) s rec c =
      rec s (Covered-le lo ((b + 1) % u64) (b + 1) s.calls (omega arith) c)
  loop_from lo b rounds current (failed e) s rec j = j
  loop_from lo b rounds current spinning s rec j = j

  pub sync_blocks_sequential_lem :
      (lo rounds b current : ℕ) (s : Indexer F)
      → Covered lo b s.calls
      → let (r, s') = sync_blocks_sequential cfg env rounds b current s in
        AfterRound lo (current + 1) r s'.calls
  unfolding sync_blocks_sequential ◌>>=◌
  sync_blocks_sequential_lem lo zero b current s c = elim (Bool-cases (leb b current)) [
    | inl more ↦ rw more c.justified
    | inr over ↦ rw over (Covered-le lo (current + 1) b s.calls (ground (arith, over)) c)
  ]
  sync_blocks_sequential_lem lo (suc rounds) b current s c = elim (Bool-cases (leb b current)) [
    | inl more ↦ rw more (
        loop_from lo b rounds current (sync_one_block cfg env b s).0 (sync_one_block cfg env b s).1
          (sync_blocks_sequential_lem lo rounds ((b + 1) % u64) current)
          (sync_one_block_lem lo b s c))
    | inr over ↦ rw over (Covered-le lo (current + 1) b s.calls (ground (arith, over)) c)
  ]
