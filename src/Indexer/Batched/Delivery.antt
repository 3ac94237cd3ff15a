-- ===== src/Indexer/Batched/Delivery.antt =====
-- applyBatchChunk: every log of a chunk is resolved before its last block is stored.
use go_block_walk.Prelude.{
  ℕ, ◌≡◌, refl, sym, ◌∙◌, inl, inr, true, false, Option, none, some, List, [], ◌∷◌, All, In, here,
  there, arith, Bool-cases, ◌==◌, ==_iff, subst,
}
use go_block_walk.Errors.{GoError, Result, ok, err, is_local_decode_error}
use go_block_walk.Dispatcher.{Log}
use go_block_walk.Ports.{Header, Call, Env, got_header, dispatched}
use go_block_walk.Hashes.{update}
use go_block_walk.Indexer.Actions.{Indexer}
use go_block_walk.Indexer.{IndexerConfig, header_by_number, dispatch_log}
use go_block_walk.Indexer.Batched.{
  BlockTimes, read_time, look_up, block_time, deliver, dispatch_logs, record_if_known,
  record_chunk_end,
}
use go_block_walk.Indexer.Quiet.{
  Grows, Quiet, Quiet-pure, Quiet-fail, Quiet-if, Quiet-bind, Quiet-must, Quiet-header_by_number,
  Quiet-record_hash, Quiet-dispatch_log,
}
use go_block_walk.Indexer.Handled.{Resolved, delivered, undecodable, timeless, Grows-Resolved}
use go_block_walk.Indexer.Post.{
  Post, Post-pure, Post-fail, Post-ask, Post-must, Post-if, Post-bind, Post-quiet, Post-and,
  Post-mono,
}

module _ {F : Type 0} where
  -- Where the timestamp that the batched path has for a block comes from.
  pub data Known (b time : ℕ) (t : List (Call F)) : Type 0 where
    from_header : (h : Header) → In (got_header b (ok h)) t → h.time ≡ time → Known b time t
    from_failure :
        (e : GoError)
        → In (got_header b (err e)) t
        → is_local_decode_error (some e) ≡ true
        → time ≡ 0
        → Known b time t

  Known-cons : {b time : ℕ} {t : List (Call F)} (c : Call F) → Known b time t → Known b time (c ∷ t)
  Known-cons c (from_header h i e) = from_header h (there i) e
  Known-cons c (from_failure e i d z) = from_failure e (there i) d z

  pub record TimesKnown (times : BlockTimes) (t : List (Call F)) : Type 0 where
    pub at : (b time : ℕ) → times b ≡ some time → Known b time t

  Grows-TimesKnown : (times : BlockTimes) → Grows (TimesKnown times)
  Grows-TimesKnown times = record {
    grow = λ c t q k. record { at = λ b time e. Known-cons c (k.at b time e) };
  }

  Grows-Known : (b time : ℕ) → Grows (Known b time)
  Grows-Known b time = record { grow = λ c t q k. Known-cons c k }

  TimesKnown-update :
      (times : BlockTimes) (b time : ℕ) (t : List (Call F))
      → Known b time t
      → TimesKnown times t
      → TimesKnown (update times b (some time)) t
  TimesKnown-update times b time t k ks = record {
    at = λ c time' e. elim (Bool-cases (c == b)) [
      | inl q ↦
          subst (λ x. Known c x t) (ground (arith, q))
            (subst (λ x. Known x time t) (sym ((==_iff c b).0 q)) k)
      | inr q ↦ ks.at c time' (ground (arith, q))
    ];
  }

module _ {F : Type 0} (cfg : IndexerConfig) (env : Env F) where
  abbrev Timed : ℕ → ℕ × BlockTimes → List (Call F) → Type 0
  Timed b (time, times) t = Known b time t × TimesKnown times t

  read_time-Post :
      (times : BlockTimes) (b : ℕ) (r : Result Header) (s : Indexer F)
      → In (got_header b r) s.calls
      → TimesKnown times s.calls
      → Post (read_time cfg env times b r) s (Timed b)
  unfolding read_time
  read_time-Post times b (ok h) s i k =
      let known = from_header h i refl in
      Post-pure (Timed b) _ s (known, TimesKnown-update times b h.time s.calls known k)
  read_time-Post times b (err e) s i k =
      Post-if (Timed b) _ _ _ s
        (λ d.
          let known = from_failure e i d refl in
          Post-pure (Timed b) _ s (known, TimesKnown-update times b 0 s.calls known k))
        (λ _. Post-fail (Timed b) _ s)

  look_up-Post :
      (times : BlockTimes) (b : ℕ) (o : Option ℕ) (s : Indexer F)
      → times b ≡ o
      → TimesKnown times s.calls
      → Post (look_up cfg env times b o) s (Timed b)
  unfolding look_up header_by_number
  look_up-Post times b (some time) s e k = Post-pure (Timed b) _ s (k.at b time e, k)
  look_up-Post times b none s e k =
      Post-bind (λ r t. In (got_header b r) t × TimesKnown times t) (Timed b) _ _ s
        (Post-ask _ _ _ s (λ r. (here refl, (Grows-TimesKnown times).grow _ s.calls tt k)))
        (λ r s' h. read_time-Post times b r s' h.0 h.1)

  block_time-Post :
      (times : BlockTimes) (b : ℕ) (s : Indexer F)
      → TimesKnown times s.calls
      → Post (block_time cfg env times b) s (Timed b)
  unfolding block_time
  block_time-Post times b s k = look_up-Post times b (times b) s refl k

  Quiet-deliver : (l : Log) (time : ℕ) → Quiet (deliver cfg env l time)
  unfolding deliver
  Quiet-deliver l time =
      Quiet-if (time == 0) _ _ (Quiet-pure tt)
        (Quiet-bind _ _ (Quiet-dispatch_log cfg env l time) (λ r. Quiet-must _ r))

  Resolved-now :
      (l : Log) (time : ℕ) (t : List (Call F))
      → Known l.block_number time t
      → (time == 0) ≡ false
      → In (dispatched l time (ok tt)) t
      → Resolved t l
  Resolved-now l time t (from_header h i e) some_time d =
      delivered h i (subst (λ x. In (dispatched l x (ok tt)) t) (sym e) d)
  Resolved-now l time t (from_failure e i d z) some_time j = absurd (ground (arith, some_time))

  Resolved-timeless :
      (l : Log) (time : ℕ) (t : List (Call F))
      → Known l.block_number time t
      → (time == 0) ≡ true
      → Resolved t l
  Resolved-timeless l time t (from_header h i e) z = timeless h i (e ∙ (==_iff time 0).0 z)
  Resolved-timeless l time t (from_failure e i d q) z = undecodable e i d

  deliver-Post :
      (l : Log) (time : ℕ) (s : Indexer F)
      → Known l.block_number time s.calls
      → Post (deliver cfg env l time) s (λ _ t. Resolved t l)
  unfolding deliver dispatch_log
  deliver-Post l time s k =
      Post-if _ (time == 0) _ _ s (λ z. Post-pure _ tt s (Resolved-timeless l time s.calls k z))
        (λ n.
          Post-bind (λ r t. Known l.block_number time t × In (dispatched l time r) t) _ _ _ s
            (Post-ask _ _ _ s (λ r. (Known-cons _ k, here refl)))
            (λ r s' h. Post-must _ _ r s' (λ u e.
              Resolved-now l time s'.calls h.0 n
                (subst (λ x. In (dispatched l time x) s'.calls) e h.1))))

  Quiet-read_time :
      (times : BlockTimes) (b : ℕ) (r : Result Header) → Quiet (read_time cfg env times b r)
  unfolding read_time
  Quiet-read_time times b (ok h) = Quiet-pure _
  Quiet-read_time times b (err e) = Quiet-if _ _ _ (Quiet-pure _) (Quiet-fail _)

  Quiet-look_up : (times : BlockTimes) (b : ℕ) (o : Option ℕ) → Quiet (look_up cfg env times b o)
  unfolding look_up
  Quiet-look_up times b (some time) = Quiet-pure _
  Quiet-look_up times b none =
      Quiet-bind _ _ (Quiet-header_by_number cfg env b) (Quiet-read_time times b)

  Quiet-block_time : (times : BlockTimes) (b : ℕ) → Quiet (block_time cfg env times b)
  unfolding block_time
  Quiet-block_time times b = Quiet-look_up times b (times b)

  pub Quiet-dispatch_logs :
      (times : BlockTimes) (ls : List Log) → Quiet (dispatch_logs cfg env times ls)
  unfolding dispatch_logs
  Quiet-dispatch_logs times [] = Quiet-pure tt
  Quiet-dispatch_logs times (l ∷ ls) =
      Quiet-bind _ _ (Quiet-block_time times l.block_number)
        λ (time, times'). Quiet-bind _ _ (Quiet-deliver l time) λ _. Quiet-dispatch_logs times' ls

  pub dispatch_logs-Post :
      (times : BlockTimes) (ls : List Log) (s : Indexer F)
      → TimesKnown times s.calls
      → Post (dispatch_logs cfg env times ls) s (λ _ t. All (Resolved t) ls)
  unfolding dispatch_logs
  dispatch_logs-Post times [] s k = Post-pure _ tt s tt
  dispatch_logs-Post times (l ∷ ls) s k =
      Post-bind (Timed l.block_number) _ _ _ s (block_time-Post times l.block_number s k)
        λ (time, times') s' h.
          Post-bind (λ _ t. Resolved t l × TimesKnown times' t) _ _ _ s'
            (Post-and _ _ _ s' (deliver-Post l time s' h.0)
              (Post-quiet _ _ s' (Grows-TimesKnown times') (Quiet-deliver l time) h.1))
            λ _ s'' h'.
              Post-mono (λ _ t. All (Resolved t) ls × Resolved t l) _ _ s'' (λ _ t p. (p.1, p.0))
                (Post-and _ _ _ s'' (dispatch_logs-Post times' ls s'' h'.1)
                  (Post-quiet _ _ s'' (Grows-Resolved l) (Quiet-dispatch_logs times' ls) h'.0))

  pub Quiet-record_chunk_end : (b : ℕ) → Quiet (record_chunk_end cfg env b)
  unfolding record_chunk_end record_if_known
  Quiet-record_chunk_end b = Quiet-bind _ _ (Quiet-header_by_number cfg env b) recorded
    where
      recorded : (r : Result Header) → Quiet (record_if_known cfg env b r)
      recorded (ok h) = Quiet-record_hash cfg env b h.hash
      recorded (err e) = Quiet-pure tt
