-- ===== src/Provider/Charging.antt =====
-- Quota and calls of the client in provider.go: each call that reaches the client is charged.
use go_block_walk.Prelude.{
  ℕ, suc, ◌+◌, ◌≡◌, refl, sym, subst, ap, ◌∙◌, Bool-cases, Option, none, some, [], ◌∷◌, arith, inl,
  inr,
}
use go_block_walk.Prelude.Int.{ℤ, pos, ◌+ℤ◌, ◌≤ℤ◌}
use go_block_walk.Prelude.Float.{Float64}
use go_block_walk.Errors.{GoError}
use go_block_walk.Breaker.{CircuitBreaker, Try, execute}
use go_block_walk.Quota.{QuotaManager, consume, consume_all}
use go_block_walk.Quota.Window.{consume_all-le-limit}
use go_block_walk.Retry.{Steps, wait}
use go_block_walk.Retry.Attempts.{attempts_of, with_retry-Run, Run}
use go_block_walk.Retry.Runs.{Run-relates, Run-Succeeds}
use go_block_walk.Provider.{Provider}
use go_block_walk.Provider.Calls.{call_timeout, beside, Client, charged_call, with_retry, rpc}
use go_block_walk.Provider.Charges.{
  Executed, rejected, ran, Charges, served, Charges-kept, Charges-trans, Charges-weaken,
}

module _ {F W : Type 0} (float : Float64 F) (clock : W → ℤ) (random : ℕ → F) (library_wait : Try W)
    (library_execute : (S : Type 0) → Try (S × W) → Try (S × W)) (sleep : ℤ → Try W) (calls : W → ℕ)
    (P : ℤ → Type 0) where
  module _ (waits : (w : W) → calls (library_wait w).1 ≡ calls w)
      (sleeps : (d : ℤ) (w : W) → calls (sleep d w).1 ≡ calls w)
      (executes : (S : Type 0) (request : Try (S × W)) (s : S) (w : W)
        → Executed calls request s w (library_execute S request (s, w)))
      (reads : (w : W) → P (clock w)) {A : Type 0} (p : Provider F) (client : Client W A)
      (counts : (t : Option ℤ) (w : W) → calls (client t w).1 ≡ suc (calls w)) where
    abbrev State : Type 0
    State = (A × QuotaManager) × W

    abbrev request : Try State
    request = charged_call float clock random library_wait library_execute sleep p client

    request-Charges : (s : State) → Charges calls P (served (request s).0) s (request s).1
    unfolding charged_call consume_all
    request-Charges ((a, qm), w) = elim (Bool-cases (consume qm (clock w)).0) [
      | inl granted ↦ record {
        times = clock w ∷ [];
        instants = (reads w, tt);
        quota = ground (arith, granted);
        made = ground (arith, granted, counts (call_timeout p) w);
        enough = ground (arith, granted);
      }
      | inr refused ↦ record {
        times = clock w ∷ [];
        instants = (reads w, tt);
        quota = ground (arith, refused);
        made = ground (arith, refused);
        enough = ground (arith, refused);
      }
    ]

    Executed-Charges :
        (s : State) (r : Option GoError × State)
        → Executed calls request s.0 s.1 r
        → Charges calls P (served r.0) s r.1
    Executed-Charges s r (rejected e w' kept) = Charges-kept calls P s (s.0, w') refl kept
    Executed-Charges s r (ran w₁ w₂ before after) =
        let c = request-Charges (s.0, w₁) in
        record {
          times = c.times;
          instants = c.instants;
          quota = c.quota;
          made = omega (arith, c.made);
          enough = c.enough;
        }

    call-Charges :
        (cb : CircuitBreaker) (s : State)
        → let r = execute cb (library_execute (A × QuotaManager)) request s in
          Charges calls P (served r.0) s r.1
    unfolding execute
    call-Charges cb s = elim (Bool-cases cb.enabled) [
      | inl on ↦ rw on (Executed-Charges s _ (executes (A × QuotaManager) request s.0 s.1))
      | inr off ↦ rw off (request-Charges s)
    ]

    wait-Charges : (s : State) → Charges calls P 0 s (wait p.limiter (beside library_wait) s).1
    unfolding wait
    wait-Charges s = Charges-kept calls P s _ (ground arith) (ground (arith, waits s.1))

    sleep-Charges : (d : ℤ) (s : State) → Charges calls P 0 s (beside (sleep d) s).1
    sleep-Charges d s = Charges-kept calls P s _ refl (sleeps d s.1)

    abbrev steps : Steps State
    steps =
        attempts_of float p.retry_cfg random request p.limiter (beside library_wait)
          p.circuit_breaker (library_execute (A × QuotaManager)) (λ d. beside (sleep d))

    Run-Charges :
        {n left : ℕ} (s : State) (r : Option GoError × State)
        → Run steps n left s r
        → Charges calls P (served r.0) s r.1
    Run-Charges s (some e, s') attempts =
        Run-relates steps (Charges calls P 0) (λ s. Charges-kept calls P s s refl refl)
          (Charges-trans calls P 0 0) wait-Charges
          (λ s. Charges-weaken calls P _ s _ (call-Charges p.circuit_breaker s))
          (λ n. sleep-Charges _) attempts
    Run-Charges s (none, s') attempts =
        let (mid, before, last) =
          Run-Succeeds steps (Charges calls P 0) (λ s. Charges-kept calls P s s refl refl)
            (Charges-trans calls P 0 0) wait-Charges
            (λ s. Charges-weaken calls P _ s _ (call-Charges p.circuit_breaker s))
            (λ n. sleep-Charges _) attempts refl in
        Charges-trans calls P 0 1 s mid s' before (
          subst (λ r. Charges calls P (served r.0) mid r.1) last
            (call-Charges p.circuit_breaker mid))

    -- A call of a method of the provider takes from its quota as many requests as it makes calls of
    -- the client, one for each attempt that reaches it, each granted at an instant that the clock
    -- showed; and it makes one at least if it returns no error. Waiting and sleeping make no call
    -- of the client, a call of the client makes one, and the breaker runs a request once or not at
    -- all.
    pub rpc-Charges :
        (zero : A) (w : W)
        → let ((result, e), (p', w')) =
            rpc float clock random library_wait library_execute sleep zero p client w in
          Charges calls P (served e) ((zero, p.quota), w) ((result, p'.quota), w')
    unfolding rpc with_retry
    rpc-Charges zero w =
        Run-Charges ((zero, p.quota), w) _
          (with_retry-Run float p.retry_cfg random request p.limiter (beside library_wait)
            p.circuit_breaker (library_execute (A × QuotaManager)) (λ d. beside (sleep d))
            ((zero, p.quota), w))

-- A method of a provider with a limit of at least 1 and a counter within it, when the clock shows
-- no instant after the end of the quota's period, keeps within the limit: the requests counted
-- before and the calls of the client that it makes, retries included, are together at most the
-- limit, and the counter has grown by their number. Waiting and sleeping make no call of the
-- client, a call of the client makes one, and the breaker runs a request once or not at all.
pub rpc-le-limit :
    {F W A : Type 0} (float : Float64 F) (clock : W → ℤ) (random : ℕ → F) (library_wait : Try W)
    (library_execute : (S : Type 0) → Try (S × W) → Try (S × W)) (sleep : ℤ → Try W) (calls : W → ℕ)
    (p : Provider F) (client : Client W A) (zero : A) (w : W)
    → ((w : W) → calls (library_wait w).1 ≡ calls w)
    → ((d : ℤ) (w : W) → calls (sleep d w).1 ≡ calls w)
    → ((S : Type 0) (request : Try (S × W)) (s : S) (w : W)
        → Executed calls request s w (library_execute S request (s, w)))
    → ((t : Option ℤ) (w : W) → calls (client t w).1 ≡ suc (calls w))
    → ((w : W) → clock w ≤ℤ p.quota.reset_time)
    → pos 1 ≤ℤ p.quota.limit
    → p.quota.used ≤ℤ p.quota.limit
    → let (_, (p', w')) =
        rpc float clock random library_wait library_execute sleep zero p client w in
      (made : ℕ) × (calls w' ≡ calls w + made)
      × (p'.quota.used ≡ p.quota.used +ℤ pos made)
      × (p'.quota.used ≤ℤ p.quota.limit)
rpc-le-limit float clock random library_wait library_execute sleep calls p client zero w waits
      sleeps executes counts early positive below =
    let c =
      rpc-Charges float clock random library_wait library_execute sleep calls
        (λ t. t ≤ℤ p.quota.reset_time) waits sleeps executes early p client counts zero w in
    let (within, counted, same) = consume_all-le-limit p.quota c.times positive below c.instants in
    (
      (consume_all p.quota c.times).0,
      c.made,
      ap (λ q. q.used) c.quota ∙ counted,
      subst (λ u. u ≤ℤ p.quota.limit) (sym (ap (λ q. q.used) c.quota ∙ counted)) within,
    )
