-- ===== src/Indexer/Batched/Spans.antt =====
-- A parallel round of syncBlocksBatched (indexer.go) ends, and serves blocks that are left.
use go_block_walk.Prelude.{
  ℕ, zero, suc, ◌+◌, ◌-◌, ◌*◌, ◌%◌, ◌^◌, ◌≤◌, ◌<◌, ◌≡◌, List, [], ◌∷◌, Option, none, some, arith,
  ltb, ◌==◌, if◌then◌else◌,
}
use go_block_walk.Prelude.Int.{ℤ, pos, negsuc, pos_part, ltb_ℤ}
use go_block_walk.Errors.{Result, ok, err, is_local_decode_error}
use go_block_walk.Dispatcher.{Log}
use go_block_walk.Ports.{Header, Call, Env}
use go_block_walk.Indexer.{IndexerConfig, u64, to_u64}
use go_block_walk.Indexer.Batched.{
  BlockTimes, read_time, look_up, block_time, deliver, dispatch_logs, record_if_known,
  record_chunk_end, apply_batch_chunk, is_too_large, parallel_span, use_parallel, fetch_parallel,
  planned_round, parallel_round,
}
use go_block_walk.Indexer.Ends.{
  Ends, Halts, Ends-pure, Ends-fail, Ends-ask, Ends-if, Ends-bind, Ends-then, Halts-must,
  Halts-header_by_number, Halts-dispatch_log, Halts-record_hash, Halts-save_progress,
}

module _ {F : Type 0} (cfg : IndexerConfig) (env : Env F) where
  Halts-read_time :
      (times : BlockTimes) (b : ℕ) (r : Result Header) → Halts (read_time cfg env times b r)
  unfolding read_time
  Halts-read_time times b (ok header) = Ends-pure _ _ tt
  Halts-read_time times b (err e) =
      Ends-if _ (is_local_decode_error (some e)) _ _ (λ _. Ends-pure _ _ tt) (λ _. Ends-fail _ _)

  Halts-look_up : (times : BlockTimes) (b : ℕ) (o : Option ℕ) → Halts (look_up cfg env times b o)
  unfolding look_up
  Halts-look_up times b (some time) = Ends-pure _ _ tt
  Halts-look_up times b none =
      Ends-then _ _ _ (Halts-header_by_number cfg env b) (Halts-read_time times b)

  Halts-deliver : (l : Log) (time : ℕ) → Halts (deliver cfg env l time)
  unfolding deliver
  Halts-deliver l time =
      Ends-if _ (time == 0) _ _ (λ _. Ends-pure _ _ tt)
        (λ _. Ends-then _ _ _ (Halts-dispatch_log cfg env l time) (λ r. Halts-must _ r))

  Halts-dispatch_logs :
      (times : BlockTimes) (logs : List Log) → Halts (dispatch_logs cfg env times logs)
  unfolding dispatch_logs block_time
  Halts-dispatch_logs times [] = Ends-pure _ _ tt
  Halts-dispatch_logs times (l ∷ ls) =
      Ends-then _ _ _ (Halts-look_up times l.block_number (times l.block_number))
        (λ p. Ends-then _ _ _ (Halts-deliver l p.0) (λ _. Halts-dispatch_logs p.1 ls))

  Halts-record_if_known : (b : ℕ) (r : Result Header) → Halts (record_if_known cfg env b r)
  unfolding record_if_known
  Halts-record_if_known b (ok header) = Halts-record_hash cfg env b header.hash
  Halts-record_if_known b (err e) = Ends-pure _ _ tt

  pub Halts-apply_batch_chunk :
      (logs : List Log) (to : ℕ) → Halts (apply_batch_chunk cfg env logs to)
  unfolding apply_batch_chunk record_chunk_end
  Halts-apply_batch_chunk logs to = Ends-then _ _ _ (Halts-dispatch_logs _ logs) λ _.
      Ends-then _ _ _
        (Ends-if _ (ltb_ℤ (pos 0) cfg.reorg_depth) _ _
          (λ _. Ends-then _ _ _ (Halts-header_by_number cfg env to) (Halts-record_if_known to))
          (λ _. Ends-pure _ _ tt))
        λ _. Halts-save_progress cfg env to

  -- A served span ends between the position and the head.
  abbrev pub Span : ℕ → ℕ → Option ℕ → Type 0
  Span from current none = Unit
  Span from current (some to) = (from ≤ to) × (to ≤ current)

  -- What a parallel plan of two Go ints promises: its span does not wrap.
  pub record IsPlan (plan : ℤ × ℤ) : Type 0 where
    pub providers : pos_part plan.0 < 2 ^ 63
    pub chunk : pos_part plan.1 < 2 ^ 63
    pub span : pos_part plan.1 * pos_part plan.0 < 2 ^ 64

  -- The answers of the pool that the arithmetic of the loop relies on: no sum or product wraps.
  pub record IsSized (current : ℕ) : Type 0 where
    pub limits : (t : List (Call F)) → to_u64 (env.max_log_block_range t) + current < u64
    pub plans : (t : List (Call F)) → IsPlan (env.parallel_plan t)

  -- The end of a served span, over the product of the plan.
  span_end :
      (from current span : ℕ)
      → from ≤ current
      → current + 1 < u64
      → 1 ≤ span
      → span < u64
      → let remaining = (current + u64 - from + 1) % u64 in
        let to = (from + (if ltb remaining span then remaining else span) + u64 - 1) % u64 in
        (from ≤ to) × (to ≤ current)
  span_end from current span l u positive small =
      let r : (current + u64 - from + 1) % u64 ≡ current - from + 1 = omega arith in
      rw r (ground arith)

  product_positive : (m n : ℕ) → 1 ≤ m → 1 ≤ n → 1 ≤ m * n
  product_positive zero n p q = absurd (omega arith)
  product_positive (suc m) zero p q = absurd (omega arith)
  product_positive (suc m) (suc n) p q = omega arith

  parallel_span-Span :
      (from current : ℕ) (plan : ℤ × ℤ)
      → from ≤ current
      → current + 1 < u64
      → IsPlan plan
      → Span from current (parallel_span cfg env from current plan)
  unfolding parallel_span
  parallel_span-Span from current (pos (suc (suc p)), pos (suc c)) l u plan =
      let a : suc c % u64 ≡ suc c = ground arith in
      let b : suc (suc p) % u64 ≡ suc (suc p) = ground arith in
      let d : (suc c * suc (suc p)) % u64 ≡ suc c * suc (suc p) = ground arith in
      let e =
        span_end from current (suc c * suc (suc p)) l u
          (product_positive (suc c) (suc (suc p)) (omega arith) (omega arith)) plan.span in
      rw (a, b, d) (ground (arith, e))
  parallel_span-Span from current (pos zero, c) l u plan = ground arith
  parallel_span-Span from current (pos (suc zero), c) l u plan = ground arith
  parallel_span-Span from current (pos (suc (suc p)), pos zero) l u plan = ground arith
  parallel_span-Span from current (pos p, negsuc c) l u plan = ground arith
  parallel_span-Span from current (negsuc p, c) l u plan = ground arith

  use_parallel-Span :
      (from current to : ℕ) (r : Result (List Log))
      → Span from current (some to)
      → Ends (use_parallel cfg env from to r) (Span from current)
  unfolding use_parallel
  use_parallel-Span from current to (ok logs) span =
      Ends-then _ _ _ (Halts-apply_batch_chunk logs to) (λ _. Ends-pure _ _ span)
  use_parallel-Span from current to (err e) span =
      Ends-if _ (is_too_large cfg env e) _ _ (λ _. Ends-pure _ _ tt) (λ _. Ends-fail _ _)

  planned_round-Span :
      (from current : ℕ) (o : Option ℕ)
      → Span from current o
      → Ends (planned_round cfg env from o) (Span from current)
  unfolding planned_round fetch_parallel
  planned_round-Span from current none span = Ends-pure _ _ tt
  planned_round-Span from current (some to) span =
      Ends-then _ _ _ (Ends-ask _ _ _ (λ _. tt)) (λ r. use_parallel-Span from current to r span)

  pub parallel_round-Span :
      (from current : ℕ)
      → IsSized current
      → from ≤ current
      → current + 1 < u64
      → Ends (parallel_round cfg env from current) (Span from current)
  unfolding parallel_round
  parallel_round-Span from current sized l small =
      Ends-if _ env.is_parallel _ _
        (λ _. Ends-bind IsPlan _ _ _ (Ends-ask _ _ _ sized.plans) (λ plan is_plan.
          planned_round-Span from current _ (parallel_span-Span from current plan l small is_plan)))
        (λ _. Ends-pure _ _ tt)
