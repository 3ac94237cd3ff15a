-- ===== src/Provider/Spending.antt =====
-- The quota of Provider (provider.go) under its methods: each keeps it within its limit.
use go_block_walk.Prelude.{ℕ, Bool-cases, inl, inr, Option}
use go_block_walk.Prelude.Int.{ℤ}
use go_block_walk.Prelude.Float.{Float64}
use go_block_walk.Errors.{GoError}
use go_block_walk.Breaker.{CircuitBreaker, Try, execute}
use go_block_walk.Quota.{QuotaManager, consume}
use go_block_walk.Quota.Bounds.{IsWithin, consume-IsWithin}
use go_block_walk.Retry.{wait}
use go_block_walk.Retry.Attempts.{attempts_of, with_retry-Run}
use go_block_walk.Retry.Runs.{Run-relates}
use go_block_walk.Provider.{Provider}
use go_block_walk.Provider.Calls.{beside, Client, charged_call, with_retry, rpc}
use go_block_walk.Provider.Charges.{Executed, rejected, ran}

-- gobreaker's Execute refuses, or runs a request once.
abbrev pub RunsOnce : {W : Type 0} → ((S : Type 0) → Try (S × W) → Try (S × W)) → Type 1
RunsOnce {W} library_execute =
    (S : Type 0) (request : Try (S × W)) (s : S) (w : W)
    → Executed (λ _. 0) request s w (library_execute S request (s, w))

module _ {F W : Type 0} (float : Float64 F) (clock : W → ℤ) (random : ℕ → F) (library_wait : Try W)
    (library_execute : (S : Type 0) → Try (S × W) → Try (S × W)) (sleep : ℤ → Try W)
    (once : RunsOnce library_execute) {A : Type 0} (p : Provider F) (client : Client W A) where
  abbrev State : Type 0
  State = (A × QuotaManager) × W

  abbrev Keeps : State → State → Type 0
  Keeps s s' = IsWithin s.0.1 → IsWithin s'.0.1

  abbrev request : Try State
  request = charged_call float clock random library_wait library_execute sleep p client

  request-Keeps : (s : State) → Keeps s (request s).1
  unfolding charged_call
  request-Keeps ((a, qm), w) h = elim (Bool-cases (consume qm (clock w)).0) [
    | inl granted ↦ rw granted (consume-IsWithin qm (clock w) h)
    | inr refused ↦ rw refused (consume-IsWithin qm (clock w) h)
  ]

  Executed-Keeps :
      (s : State) (r : Option GoError × State) → Executed (λ _. 0) request s.0 s.1 r → Keeps s r.1
  Executed-Keeps s r (rejected e w' kept) h = h
  Executed-Keeps s r (ran w₁ w₂ before after) h = request-Keeps (s.0, w₁) h

  call-Keeps :
      (cb : CircuitBreaker) (s : State)
      → Keeps s (execute cb (library_execute (A × QuotaManager)) request s).1
  unfolding execute
  call-Keeps cb s = elim (Bool-cases cb.enabled) [
    | inl on ↦ rw on (Executed-Keeps s _ (once (A × QuotaManager) request s.0 s.1))
    | inr off ↦ rw off (request-Keeps s)
  ]

  wait-Keeps : (s : State) → Keeps s (wait p.limiter (beside library_wait) s).1
  unfolding wait
  wait-Keeps s h = elim (Bool-cases p.limiter.enabled) [ inl on ↦ rw on h | inr off ↦ rw off h ]

  -- A method keeps the quota within its limit, whatever the client answers and however often it is
  -- tried again.
  pub rpc-IsWithin :
      (zero : A) (w : W)
      → IsWithin p.quota
      → IsWithin
          (rpc float clock random library_wait library_execute sleep zero p client w).1.0.quota
  unfolding rpc with_retry
  rpc-IsWithin zero w =
      Run-relates
        (attempts_of float p.retry_cfg random request p.limiter (beside library_wait)
          p.circuit_breaker (library_execute (A × QuotaManager)) (λ d. beside (sleep d)))
        Keeps (λ s h. h) (λ s s' s'' f g h. g (f h)) wait-Keeps (call-Keeps p.circuit_breaker)
        (λ n s h. h)
        (with_retry-Run float p.retry_cfg random request p.limiter (beside library_wait)
          p.circuit_breaker (library_execute (A × QuotaManager)) (λ d. beside (sleep d))
          ((zero, p.quota), w))
