-- ===== src/Indexer/Handled.antt =====
-- What the calls of a sync show of a block. Block by block: that its logs were fetched and every one
-- of them went to the dispatcher, or that one of its calls failed with a local decode error. By
-- ranges: that the logs of a range around it were fetched, and each of them went to the dispatcher,
-- or is of a block whose header failed with a local decode error or has the timestamp 0.
use go_block_walk.Prelude.{
  ℕ, ◌≤◌, ◌<◌, ◌+◌, ◌≡◌, ◌⊎◌, inl, inr, true, some, List, [], ◌∷◌, ◌++◌, All, In, there, arith,
  Bool-cases, ==_iff, ◌==◌, subst, sym,
}
use go_block_walk.Errors.{GoError, ok, err, is_local_decode_error}
use go_block_walk.Dispatcher.{Log}
use go_block_walk.Ports.{
  Header, Call, stored_last_block, got_header, got_block_logs, got_range_logs, got_parallel_logs,
  dispatched,
}
use go_block_walk.Indexer.Actions.{Indexer, Outcome, done, failed, spinning}
use go_block_walk.Indexer.Quiet.{IsQuiet, Grows}

module _ {F : Type 0} where
  -- Every log went to the dispatcher with this timestamp, and was accepted.
  abbrev pub Delivered : ℕ → List Log → List (Call F) → Type 0
  Delivered time logs t = All (λ l. In (dispatched l time (ok tt)) t) logs

  -- A call made for block `b` that failed with `e`.
  pub data Blamed (b : ℕ) (e : GoError) (t : List (Call F)) : Type 0 where
    at_header : In (got_header b (err e)) t → Blamed b e t
    at_logs : In (got_block_logs b (err e)) t → Blamed b e t
    at_dispatch :
        (l : Log) (time : ℕ) (logs : List Log)
        → In (got_block_logs b (ok logs)) t
        → In l logs
        → In (dispatched l time (err e)) t
        → Blamed b e t

  -- What the batched path does with a log: it was accepted with the timestamp of its block's header,
  -- or that header could not be decoded, or its timestamp is 0.
  pub data Resolved (t : List (Call F)) (l : Log) : Type 0 where
    delivered :
        (h : Header)
        → In (got_header l.block_number (ok h)) t
        → In (dispatched l h.time (ok tt)) t
        → Resolved t l
    undecodable :
        (e : GoError)
        → In (got_header l.block_number (err e)) t
        → is_local_decode_error (some e) ≡ true
        → Resolved t l
    timeless : (h : Header) → In (got_header l.block_number (ok h)) t → h.time ≡ 0 → Resolved t l

  pub data Handled (b : ℕ) (t : List (Call F)) : Type 0 where
    by_block :
        (h : Header) (logs : List Log)
        → In (got_header b (ok h)) t
        → In (got_block_logs b (ok logs)) t
        → Delivered h.time logs t
        → Handled b t
    by_skip : (e : GoError) → Blamed b e t → is_local_decode_error (some e) ≡ true → Handled b t
    by_range :
        (from to : ℕ) (logs : List Log)
        → from ≤ b
        → b ≤ to
        → In (got_range_logs from to (ok logs)) t ⊎ In (got_parallel_logs from to (ok logs)) t
        → All (Resolved t) logs
        → Handled b t

  -- Each successful `SetLastBlock(n)` came after all of `lo` … `n` had been handled.
  abbrev pub Justified : ℕ → List (Call F) → Type 0
  Justified lo [] = Unit
  Justified lo (stored_last_block n (ok u) ∷ t) =
      ((b : ℕ) → lo ≤ b → b ≤ n → Handled b t) × Justified lo t
  Justified lo (_ ∷ t) = Justified lo t

  Blamed-cons :
      {b : ℕ} {e : GoError} {t : List (Call F)} (c : Call F) → Blamed b e t → Blamed b e (c ∷ t)
  Blamed-cons c (at_header i) = at_header (there i)
  Blamed-cons c (at_logs i) = at_logs (there i)
  Blamed-cons c (at_dispatch l time logs i m j) = at_dispatch l time logs (there i) m (there j)

  Delivered-cons :
      (c : Call F) (time : ℕ) (logs : List Log) (t : List (Call F))
      → Delivered time logs t
      → Delivered time logs (c ∷ t)
  Delivered-cons c time [] t d = tt
  Delivered-cons c time (l ∷ ls) t d = (there d.0, Delivered-cons c time ls t d.1)

  Resolved-cons : {t : List (Call F)} (c : Call F) {l : Log} → Resolved t l → Resolved (c ∷ t) l
  Resolved-cons c (delivered h i j) = delivered h (there i) (there j)
  Resolved-cons c (undecodable e i d) = undecodable e (there i) d
  Resolved-cons c (timeless h i z) = timeless h (there i) z

  All-Resolved-cons :
      (c : Call F) (logs : List Log) (t : List (Call F))
      → All (Resolved t) logs
      → All (Resolved (c ∷ t)) logs
  All-Resolved-cons c [] t r = tt
  All-Resolved-cons c (l ∷ ls) t r = (Resolved-cons c r.0, All-Resolved-cons c ls t r.1)

  pub Handled-cons : {b : ℕ} {t : List (Call F)} (c : Call F) → Handled b t → Handled b (c ∷ t)
  Handled-cons c (by_block h logs i j d) =
      by_block h logs (there i) (there j) (Delivered-cons c h.time logs _ d)
  Handled-cons c (by_skip e blame d) = by_skip e (Blamed-cons c blame) d
  Handled-cons c (by_range from to logs lo hi (inl i) r) =
      by_range from to logs lo hi (inl (there i)) (All-Resolved-cons c logs _ r)
  Handled-cons c (by_range from to logs lo hi (inr i) r) =
      by_range from to logs lo hi (inr (there i)) (All-Resolved-cons c logs _ r)

  Justified-cons :
      (lo : ℕ) (c : Call F) (t : List (Call F)) → IsQuiet c → Justified lo t → Justified lo (c ∷ t)
  Justified-cons lo (stored_last_block n r) t q j = elim q [ ]
  Justified-cons lo _ t q j = j

  pub Grows-Justified : (lo : ℕ) → Grows (Justified lo)
  Grows-Justified lo = record { grow = λ c t q j. Justified-cons lo c t q j }

  pub Grows-In : (c : Call F) → Grows (In c)
  Grows-In c = record { grow = λ d t q i. there i }

  pub Grows-Handled : (b : ℕ) → Grows (Handled b)
  Grows-Handled b = record { grow = λ c t q h. Handled-cons c h }

  pub Grows-Delivered : (time : ℕ) (logs : List Log) → Grows (Delivered time logs)
  Grows-Delivered time logs = record { grow = λ c t q d. Delivered-cons c time logs t d }

  pub Grows-All-Resolved : (logs : List Log) → Grows (λ t. All (Resolved t) logs)
  Grows-All-Resolved logs = record { grow = λ c t q r. All-Resolved-cons c logs t r }

  pub Grows-Resolved : (l : Log) → Grows (λ t. Resolved t l)
  Grows-Resolved l = record { grow = λ c t q d. Resolved-cons c d }

  -- What a loop that has come to block `hi` keeps: all below it, from `lo` on, are handled.
  pub record Covered (lo hi : ℕ) (t : List (Call F)) : Type 0 where
    pub justified : Justified lo t
    pub handled : (b : ℕ) → lo ≤ b → b < hi → Handled b t

  pub Grows-Covered : (lo hi : ℕ) → Grows (Covered lo hi)
  Grows-Covered lo hi = record {
    grow = λ c t q h. record {
      justified = Justified-cons lo c t q h.justified;
      handled = λ b l u. Handled-cons c (h.handled b l u);
    };
  }

  -- One round from `lo` … `hi - 1` handled: on success all below `next` are, and in any case each
  -- stored position is justified.
  abbrev pub AfterRound : {A : Type 0} → ℕ → ℕ → Outcome A → List (Call F) → Type 0
  AfterRound lo next (done _) t = Covered lo next t
  AfterRound lo next (failed e) t = Justified lo t
  AfterRound lo next spinning t = Justified lo t

  pub AfterRound-of_Covered :
      {A : Type 0} (lo next : ℕ) (r : Outcome A) (t : List (Call F))
      → Covered lo next t
      → AfterRound lo next r t
  AfterRound-of_Covered lo next (done _) t c = c
  AfterRound-of_Covered lo next (failed e) t c = c.justified
  AfterRound-of_Covered lo next spinning t c = c.justified

  pub Covered-suc :
      (lo b : ℕ) (t : List (Call F)) → Handled b t → Covered lo b t → Covered lo (b + 1) t
  Covered-suc lo b t h c = record {
    justified = c.justified;
    handled = λ x l u. elim (Bool-cases (x == b)) [
      | inl e ↦ subst (λ y. Handled y t) (sym ((==_iff x b).0 e)) h
      | inr e ↦ c.handled x l (ground (arith, e))
    ];
  }

  pub Handled-upto :
      (lo b : ℕ) (t : List (Call F)) → Covered lo (b + 1) t → (x : ℕ) → lo ≤ x → x ≤ b → Handled x t
  Handled-upto lo b t c x l u = c.handled x l (omega arith)

  pub Covered-le : (lo m n : ℕ) (t : List (Call F)) → m ≤ n → Covered lo n t → Covered lo m t
  Covered-le lo m n t h c = record {
    justified = c.justified;
    handled = λ x l u. c.handled x l (omega arith);
  }

  pub Covered-empty : (lo : ℕ) (s : Indexer F) → s.calls ≡ [] → Covered lo lo s.calls
  Covered-empty lo s e =
      subst (Covered lo lo) (sym e)
        (record { justified = tt; handled = λ b l u. absurd (omega arith) })

  pub Justified-tail :
      (lo : ℕ) (c : Call F) (t : List (Call F)) → Justified lo (c ∷ t) → Justified lo t
  Justified-tail lo (stored_last_block n (ok u)) t j = j.1
  Justified-tail lo _ t j = j

  pub Justified-split :
      (lo : ℕ) (after before : List (Call F)) (n b : ℕ)
      → Justified lo (after ++ stored_last_block n (ok tt) ∷ before)
      → lo ≤ b
      → b ≤ n
      → Handled b before
  Justified-split lo [] before n b j l u = j.0 b l u
  Justified-split lo (c ∷ after) before n b j l u =
      Justified-split lo after before n b
        (Justified-tail lo c (after ++ stored_last_block n (ok tt) ∷ before) j) l u
