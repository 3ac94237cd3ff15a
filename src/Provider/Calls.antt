-- ===== src/Provider/Calls.antt =====
-- provider.go: withRetry and the RPC methods of Provider. `clock` reads the time, and the packages'
-- waits and breaker are arguments. One call runs at a time: nobody else consumes the quota
-- meanwhile.
use go_block_walk.Prelude.{ℕ, Bool, false, Option, none, some, List, [], ◌++◌, codes, if◌then◌else◌}
use go_block_walk.Prelude.Int.{ℤ, pos, ltb_ℤ}
use go_block_walk.Prelude.Float.{Float64}
use go_block_walk.Errors.{GoError, plain, sentinel, quota_exceeded, wrap}
use go_block_walk.Breaker.{Try}
use go_block_walk.Quota.{QuotaManager, consume}
use go_block_walk.Dispatcher.{Log}
use go_block_walk.Provider.{Provider}
use go_block_walk.Retry

-- A wait of a package, in a state that has other parts.
abbrev pub beside : {S W : Type 0} → Try W → Try (S × W)
beside f (s, w) = let (o, w') = f w in (o, (s, w'))

-- What a call of the client does, given the timeout of its context: its results and its error.
abbrev pub Client : Type 0 → Type 0 → Type 0
Client W A = Option ℤ → W → (A × Option GoError) × W

abbrev pub call_timeout : {F : Type 0} → Provider F → Option ℤ
call_timeout p = if ltb_ℤ (pos 0) p.request_timeout then some p.request_timeout else none

abbrev pub quota_error : {F : Type 0} → Provider F → GoError
quota_error p = wrap (codes "provider " ++ (p.name ++ codes ": ")) (sentinel quota_exceeded)

module _ {F W : Type 0} (float : Float64 F) (clock : W → ℤ) (random : ℕ → F) (library_wait : Try W)
    (library_execute : (S : Type 0) → Try (S × W) → Try (S × W)) (sleep : ℤ → Try W) where
  -- The closure that withRetry passes on: `a` is the variable `result` of the method.
  unfoldable pub charged_call :
      {A : Type 0} → Provider F → Client W A → Try ((A × QuotaManager) × W)
  charged_call p client ((a, qm), w) =
      let (granted, qm') = consume qm (clock w) in
      let ((result, e), w') = client (call_timeout p) w in
      if granted then (e, ((result, qm'), w')) else (some (quota_error p), ((a, qm'), w))

  unfoldable pub with_retry : {A : Type 0} → Provider F → Client W A → Try ((A × QuotaManager) × W)
  with_retry {A} p client =
      go_block_walk.Retry.with_retry float p.retry_cfg random (charged_call p client) p.limiter
        (beside library_wait) p.circuit_breaker (library_execute (A × QuotaManager))
        (λ d. beside (sleep d))

  -- What a method returns, with the provider and the world after it.
  abbrev pub Reply : Type 0 → Type 0
  Reply A = (A × Option GoError) × (Provider F × W)

  -- A method: `zero` is the value of `result` at its declaration.
  unfoldable pub rpc : {A : Type 0} → A → Provider F → Client W A → W → Reply A
  rpc zero p client w =
      let (o, ((result, qm), w')) = with_retry p client ((zero, p.quota), w) in
      ((result, o), (record p { quota = qm }, w'))

  unfoldable pub block_by_number :
      {Block : Type 0} → (ℕ → Client W (Option Block)) → Provider F → ℕ → W → Reply (Option Block)
  block_by_number client p block_num = rpc none p (client block_num)

  unfoldable pub block_by_hash :
      {Hash Block : Type 0}
      → (Hash → Client W (Option Block))
      → Provider F
      → Hash
      → W
      → Reply (Option Block)
  block_by_hash client p hash = rpc none p (client hash)

  unfoldable pub transaction_by_hash :
      {Hash Transaction : Type 0}
      → (Hash → Client W (Option Transaction × Bool))
      → Provider F
      → Hash
      → W
      → Reply (Option Transaction × Bool)
  transaction_by_hash client p hash = rpc (none, false) p (client hash)

  unfoldable pub transaction_receipt :
      {Hash Receipt : Type 0}
      → (Hash → Client W (Option Receipt))
      → Provider F
      → Hash
      → W
      → Reply (Option Receipt)
  transaction_receipt client p hash = rpc none p (client hash)

  unfoldable pub filter_logs :
      {Query : Type 0} → (Query → Client W (List Log)) → Provider F → Query → W → Reply (List Log)
  filter_logs client p q = rpc [] p (client q)

  unfoldable pub header_by_number :
      {Header : Type 0}
      → (Option ℤ → Client W (Option Header))
      → Provider F
      → Option ℤ
      → W
      → Reply (Option Header)
  header_by_number client p number = rpc none p (client number)

  unfoldable pub block_number : Client W ℕ → Provider F → W → Reply ℕ
  block_number client p = rpc 0 p client

  -- The block number of the next three is nil.
  unfoldable pub balance_at :
      {Address : Type 0}
      → (Address → Option ℤ → Client W (Option ℤ))
      → Provider F
      → Address
      → W
      → Reply (Option ℤ)
  balance_at client p address = rpc none p (client address none)

  unfoldable pub call :
      {CallMsg : Type 0}
      → (CallMsg → Option ℤ → Client W (List ℕ))
      → Provider F
      → CallMsg
      → W
      → Reply (List ℕ)
  call client p msg = rpc [] p (client msg none)

  unfoldable pub code_at :
      {Address : Type 0}
      → (Address → Option ℤ → Client W (List ℕ))
      → Provider F
      → Address
      → W
      → Reply (List ℕ)
  code_at client p address = rpc [] p (client address none)

  -- No retry, quota or timeout.
  unfoldable pub subscribe_new_head :
      {Subscription : Type 0}
      → Client W (Option Subscription)
      → Provider F
      → W
      → (Option Subscription × Option GoError) × W
  subscribe_new_head client p w =
      if p.connected
      then client none w
      else ((none, some (plain (codes "provider " ++ (p.name ++ codes ": not connected")))), w)
