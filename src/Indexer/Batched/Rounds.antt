-- ===== src/Indexer/Batched/Rounds.antt =====
-- One round of syncBlocksBatched (indexer.go): it ends, and a measure of the loop's variables falls.
use go_block_walk.Prelude.{
  ℕ, zero, suc, ◌+◌, ◌-◌, ◌*◌, ◌%◌, ◌≤◌, ◌<◌, ◌≡◌, refl, Bool, true, false, List, Option, none,
  some, arith, ltb, ◌&&◌,
}
use go_block_walk.Errors.{Result, ok, err}
use go_block_walk.Dispatcher.{Log}
use go_block_walk.Ports.{Env}
use go_block_walk.Indexer.{IndexerConfig, u64, to_u64, max_log_block_range}
use go_block_walk.Indexer.Batched.{
  Cursor, is_too_large, choose_size, chunk_end_for, halved, after_fetch, single_round,
  after_parallel, sync_one_chunk,
}
use go_block_walk.Indexer.Ends.{Ends, Ends-pure, Ends-fail, Ends-ask, Ends-if, Ends-bind, Ends-then}
use go_block_walk.Indexer.Batched.Spans.{
  Halts-apply_batch_chunk, Span, IsSized, parallel_round-Span,
}

module _ {F : Type 0} (cfg : IndexerConfig) (env : Env F) where
  -- The variables of the loop stay small enough that no sum wraps; `n` bounds a size to retry with.
  pub record Fits (n current : ℕ) (c : Cursor) : Type 0 where
    pub positive : 1 ≤ c.chunk_size
    pub fits : c.chunk_size + current < u64
    pub bounded : c.retrying ≡ true → c.chunk_size ≤ n

  -- Falls with each round: the blocks that are left, then the size to retry with.
  abbrev pub retry_size : ℕ → Bool → ℕ → ℕ
  retry_size n true size = size
  retry_size n false size = n + 1

  abbrev pub measure : ℕ → ℕ → Cursor → ℕ
  measure n current c =
      (current + 1 - c.chunk_start) * (n + 2) + retry_size n c.retrying c.chunk_size

  pub mul_step : (k m l : ℕ) → m < l → m * k + k ≤ l * k
  mul_step k m zero h = absurd (omega arith)
  mul_step k zero (suc l) h = omega arith
  mul_step k (suc m) (suc l) h = omega (arith, mul_step k m l (omega arith))

  measure-progress :
      (n current : ℕ) (c c' : Cursor)
      → Fits n current c'
      → c.chunk_start ≤ current
      → c.chunk_start < c'.chunk_start
      → measure n current c' < measure n current c
  measure-progress n current c c' f l p = ground (
    arith,
    mul_step (n + 2) (current + 1 - c'.chunk_start) (current + 1 - c.chunk_start) (omega arith),
  )

  -- A size to fetch with, and the chunk that it gives.
  record Chosen (current : ℕ) (c : Cursor) (size : ℕ) : Type 0 where
    positive : 1 ≤ size
    fits : size + current < u64
    same : c.retrying ≡ true → size ≡ c.chunk_size

  choose_size-Chosen :
      (n current : ℕ) (c : Cursor)
      → IsSized cfg env current
      → Fits n current c
      → Ends (choose_size cfg env c) (Chosen current c)
  unfolding choose_size max_log_block_range
  choose_size-Chosen n current c sized f =
      Ends-if _ c.retrying _ _
        (λ _. Ends-pure _ _ (record { positive = f.positive; fits = f.fits; same = λ _. refl }))
        (λ r.
          Ends-bind (λ limit. to_u64 limit + current < u64) _ _ _ (Ends-ask _ _ _ sized.limits)
            (λ limit small. Ends-pure _ _ (record {
              positive = ground (arith, f.positive);
              fits = ground (arith, f.fits);
              same = ground arith;
            })))

  chunk_end_for-Span :
      (from size current : ℕ)
      → from ≤ current
      → 1 ≤ size
      → size + current < u64
      → let to = chunk_end_for cfg env from size current in
        (from ≤ to) × (to ≤ current) × (to + 1 ≤ from + size)
  unfolding chunk_end_for
  chunk_end_for-Span from size current l p u =
      let e : (from + size + u64 - 1) % u64 ≡ from + size - 1 = omega arith in rw e (ground arith)

  -- What a round does to the variables of the loop.
  pub record Steps (n current : ℕ) (c c' : Cursor) : Type 0 where
    pub fits : Fits n current c'
    pub start : c.chunk_start ≤ c'.chunk_start
    pub less : measure n current c' < measure n current c

  next_chunk :
      (n current to size : ℕ) (c : Cursor) (retrying : Bool)
      → Fits n current (record { chunk_start = 0; chunk_size = size; retrying = retrying })
      → c.chunk_start ≤ to
      → to ≤ current
      → current + 1 < u64
      → Steps n current c
          (record { chunk_start = (to + 1) % u64; chunk_size = size; retrying = retrying })
  next_chunk n current to size c retrying f l u small =
      let e : (to + 1) % u64 ≡ to + 1 = omega arith in
      let f' : Fits n current
          (record { chunk_start = to + 1; chunk_size = size; retrying = retrying }) =
        record { positive = f.positive; fits = f.fits; bounded = f.bounded } in
      rw e (record {
        fits = f';
        start = omega arith;
        less = measure-progress n current c _ f' (omega arith) (omega arith);
      })

  after_fetch-Steps :
      (n current size to : ℕ) (c : Cursor) (r : Result (List Log))
      → Chosen current c size
      → (c.chunk_start ≤ to) × (to ≤ current) × (to + 1 ≤ c.chunk_start + size)
      → current + 1 ≤ n + c.chunk_start
      → current + 1 < u64
      → Ends (after_fetch cfg env c size to r) (Steps n current c)
  unfolding after_fetch halved
  after_fetch-Steps n current size to c (ok logs) chosen span left small =
      Ends-then _ _ _ (Halts-apply_batch_chunk cfg env logs to) (λ _. Ends-pure _ _ (
        next_chunk n current to size c false
          (record { positive = chosen.positive; fits = chosen.fits; bounded = ground arith }) span.0
          span.1 small))
  after_fetch-Steps n current size to c (err e) chosen span left small =
      Ends-if _ (is_too_large cfg env e && ltb c.chunk_start to) _ _
        (λ split. Ends-pure _ _ (record {
          fits = record {
            positive = ground arith;
            fits = ground (arith, chosen.fits);
            bounded = ground arith;
          };
          start = omega arith;
          less = ground (arith, chosen.same);
        }))
        (λ _. Ends-fail _ _)

  single_round-Steps :
      (n current : ℕ) (c : Cursor)
      → IsSized cfg env current
      → Fits n current c
      → c.chunk_start ≤ current
      → current + 1 ≤ n + c.chunk_start
      → current + 1 < u64
      → Ends (single_round cfg env c current) (Steps n current c)
  unfolding single_round
  single_round-Steps n current c sized f l left small =
      Ends-bind (Chosen current c) _ _ _ (choose_size-Chosen n current c sized f) λ size chosen.
        let to = chunk_end_for cfg env c.chunk_start size current in
        Ends-then _ _ _ (Ends-ask _ _ _ (λ _. tt)) λ r.
          after_fetch-Steps n current size to c r chosen
            (chunk_end_for-Span c.chunk_start size current l chosen.positive chosen.fits) left small

  after_parallel-Steps :
      (n current : ℕ) (c : Cursor) (o : Option ℕ)
      → IsSized cfg env current
      → Fits n current c
      → c.chunk_start ≤ current
      → current + 1 ≤ n + c.chunk_start
      → current + 1 < u64
      → Span cfg env c.chunk_start current o
      → Ends (after_parallel cfg env c current o) (Steps n current c)
  unfolding after_parallel
  after_parallel-Steps n current c none sized f l left small span =
      single_round-Steps n current c sized f l left small
  after_parallel-Steps n current c (some to) sized f l left small span = Ends-pure _ _ (
      next_chunk n current to c.chunk_size c c.retrying
        (record { positive = f.positive; fits = f.fits; bounded = f.bounded }) span.0 span.1 small)

  pub sync_one_chunk-Steps :
      (n current : ℕ) (c : Cursor)
      → IsSized cfg env current
      → Fits n current c
      → c.chunk_start ≤ current
      → current + 1 ≤ n + c.chunk_start
      → current + 1 < u64
      → Ends (sync_one_chunk cfg env c current) (Steps n current c)
  unfolding sync_one_chunk
  sync_one_chunk-Steps n current c sized f l left small =
      Ends-bind (Span cfg env c.chunk_start current) _ _ _
        (parallel_round-Span cfg env c.chunk_start current sized l small)
        (λ o span. after_parallel-Steps n current c o sized f l left small span)
