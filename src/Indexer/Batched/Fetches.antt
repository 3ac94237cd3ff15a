-- ===== src/Indexer/Batched/Fetches.antt =====
-- A chunk of the batched path of indexer.go, and the parallel part of a round: what was handled
-- before is still so, and the blocks that were fetched are handled.
use go_block_walk.Prelude.{
  ℕ, ◌+◌, refl, inl, inr, Option, none, some, List, All, In, here, there, arith, Bool-cases, ltb,
  ◌⊎◌,
}
use go_block_walk.Errors.{Result, ok, err}
use go_block_walk.Dispatcher.{Log}
use go_block_walk.Ports.{Call, Env, got_range_logs, got_parallel_logs}
use go_block_walk.Indexer.Actions.{Indexer}
use go_block_walk.Indexer.{IndexerConfig}
use go_block_walk.Indexer.Batched.{
  apply_batch_chunk, use_parallel, fetch_parallel, planned_round, parallel_round, is_too_large,
}
use go_block_walk.Indexer.Quiet.{Grows, Quiet-pure, Quiet-if, Quiet-ask}
use go_block_walk.Indexer.Handled.{
  Resolved, by_range, Covered, Justified, Grows-Covered, Handled-upto, Grows-All-Resolved,
}
use go_block_walk.Indexer.Post.{Post-ask, Post-quiet, Post-and}
use go_block_walk.Indexer.Sound.{
  Sound, Sound-pure, Sound-fail, Sound-if, Sound-Quiet, Sound-bind, Sound_of_AfterRound,
}
use go_block_walk.Indexer.Sequential.{save_progress_lem}
use go_block_walk.Indexer.Batched.Delivery.{
  dispatch_logs-Post, Quiet-dispatch_logs, Quiet-record_chunk_end,
}

module _ {F : Type 0} (cfg : IndexerConfig) (env : Env F) where
  -- The logs of `from` … `to` were fetched, in one request or in parallel.
  abbrev pub Fetched : ℕ → ℕ → List Log → List (Call F) → Type 0
  Fetched from to logs t =
      In (got_range_logs from to (ok logs)) t ⊎ In (got_parallel_logs from to (ok logs)) t

  abbrev pub Ready : ℕ → ℕ → ℕ → List Log → List (Call F) → Type 0
  Ready lo from to logs t = Covered lo from t × Fetched from to logs t

  Grows-Ready : (lo from to : ℕ) (logs : List Log) → Grows (Ready lo from to logs)
  Grows-Ready lo from to logs = record {
    grow = λ c t q h. (
      (Grows-Covered lo from).grow c t q h.0,
      elim h.1 [ inl i ↦ inl (there i) | inr i ↦ inr (there i) ],
    );
  }

  abbrev ReadyToStore : ℕ → ℕ → ℕ → List Log → List (Call F) → Type 0
  ReadyToStore lo from to logs t = All (Resolved t) logs × Ready lo from to logs t

  Grows-ReadyToStore : (lo from to : ℕ) (logs : List Log) → Grows (ReadyToStore lo from to logs)
  Grows-ReadyToStore lo from to logs = record {
    grow = λ c t q h.
        ((Grows-All-Resolved logs).grow c t q h.0, (Grows-Ready lo from to logs).grow c t q h.1);
  }

  Covered-chunk :
      (lo from to : ℕ) (logs : List Log) (t : List (Call F))
      → ReadyToStore lo from to logs t
      → Covered lo (to + 1) t
  Covered-chunk lo from to logs t (r, (c, f)) = record {
    justified = c.justified;
    handled = λ x l u. elim (Bool-cases (ltb x from)) [
      | inl before ↦ c.handled x l (ground (arith, before))
      | inr inside ↦ by_range from to logs (ground (arith, inside)) (omega arith) f r
    ];
  }

  pub apply_batch_chunk-Sound :
      (lo from to : ℕ) (logs : List Log) (s : Indexer F)
      → Ready lo from to logs s.calls
      → Sound lo (apply_batch_chunk cfg env logs to) s (λ _ t. Covered lo (to + 1) t)
  unfolding apply_batch_chunk
  apply_batch_chunk-Sound lo from to logs s h =
      Sound-bind lo (λ _ t. ReadyToStore lo from to logs t × Justified lo t) _ _ _ s
        (Sound-Quiet lo _ _ s (Quiet-dispatch_logs cfg env _ logs) h.0.justified (
          Post-and _ _ _ s (dispatch_logs-Post cfg env _ logs s (record { at = λ b time e. cc })) (
            Post-quiet _ _ s (Grows-Ready lo from to logs) (Quiet-dispatch_logs cfg env _ logs) h)))
        λ _ s' h'.
          Sound-bind lo (λ _ t. ReadyToStore lo from to logs t × Justified lo t) _ _ _ s'
            (let quiet = Quiet-if _ _ _ (Quiet-record_chunk_end cfg env to) (Quiet-pure tt) in
              Sound-Quiet lo _ _ s' quiet h'.1
                (Post-quiet _ _ s' (Grows-ReadyToStore lo from to logs) quiet h'.0))
            λ _ s'' h''.
              let c = Covered-chunk lo from to logs s''.calls h''.0 in
              Sound_of_AfterRound lo (to + 1) _ s''
                (save_progress_lem cfg env lo to (to + 1) s'' (Handled-upto lo to s''.calls c) c)

  -- After the parallel part of a round: nothing was served, or all up to the given block.
  abbrev pub Served : ℕ → ℕ → Option ℕ → List (Call F) → Type 0
  Served lo from none t = Covered lo from t
  Served lo from (some to) t = Covered lo (to + 1) t

  use_parallel-Sound :
      (lo from to : ℕ) (r : Result (List Log)) (s : Indexer F)
      → Covered lo from s.calls
      → In (got_parallel_logs from to r) s.calls
      → Sound lo (use_parallel cfg env from to r) s (Served lo from)
  unfolding use_parallel
  use_parallel-Sound lo from to (ok logs) s c i =
      Sound-bind lo (λ _ t. Covered lo (to + 1) t) _ _ _ s
        (apply_batch_chunk-Sound lo from to logs s (c, inr i))
        (λ _ s' c'. Sound-pure lo (Served lo from) (some to) s' c')
  use_parallel-Sound lo from to (err e) s c i =
      Sound-if lo _ (is_too_large cfg env e) _ _ s (λ _. Sound-pure lo (Served lo from) none s c)
        (λ _. Sound-fail lo _ _ s c.justified)

  planned_round-Sound :
      (lo from : ℕ) (o : Option ℕ) (s : Indexer F)
      → Covered lo from s.calls
      → Sound lo (planned_round cfg env from o) s (Served lo from)
  unfolding planned_round fetch_parallel
  planned_round-Sound lo from none s c = Sound-pure lo (Served lo from) none s c
  planned_round-Sound lo from (some to) s c =
      Sound-bind lo
        (λ r t. (Covered lo from t × In (got_parallel_logs from to r) t) × Justified lo t) _ _ _ s
        (Sound-Quiet lo _ _ s (Quiet-ask _ _ (λ _. tt)) c.justified
          (Post-ask _ _ _ s (λ r. ((Grows-Covered lo from).grow _ s.calls tt c, here refl))))
        (λ r s' h. use_parallel-Sound lo from to r s' h.0.0 h.0.1)

  pub parallel_round-Sound :
      (lo from current : ℕ) (s : Indexer F)
      → Covered lo from s.calls
      → Sound lo (parallel_round cfg env from current) s (Served lo from)
  unfolding parallel_round
  parallel_round-Sound lo from current s c =
      Sound-if lo _ env.is_parallel _ _ s
        (λ _.
          Sound-bind lo (λ _ t. Covered lo from t × Justified lo t) _ _ _ s
            (Sound-Quiet lo _ _ s (Quiet-ask _ _ (λ _. tt)) c.justified
              (Post-ask _ _ _ s (λ r. (Grows-Covered lo from).grow _ s.calls tt c)))
            (λ plan s' h. planned_round-Sound lo from _ s' h.0))
        (λ _. Sound-pure lo (Served lo from) none s c)
