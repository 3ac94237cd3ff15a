-- ===== src/Ranking/Spending.antt =====
-- No use of a pool (pool.go) exceeds a quota of its providers (provider.go).
use go_block_walk.Prelude.{
  ℕ, refl, Bool, Bool-cases, inl, inr, Option, none, some, List, [], ◌∷◌, Text, All-In, In,
}
use go_block_walk.Prelude.Int.{ℤ}
use go_block_walk.Prelude.Float.{Float64}
use go_block_walk.Errors.{GoError}
use go_block_walk.Breaker.{Try}
use go_block_walk.Quota.{QuotaManager}
use go_block_walk.Quota.Bounds.{IsWithin, Spends}
use go_block_walk.Provider.{Provider}
use go_block_walk.Provider.Calls.{Client, rpc}
use go_block_walk.Provider.Spending.{RunsOnce, rpc-IsWithin}
use go_block_walk.Ranking.{PoolState, get_provider, recalculate_scores, sort_ordered_list}
use go_block_walk.Ranking.Calls.{
  Sight, Method, recorded, with_best, through, with_best_unrecorded, through_unrecorded, after_call,
}
use go_block_walk.Ranking.Uses.{
  Use, Uses, calls, calls_unrecorded, succeeds, fails, recalculates, looks, backfills, passes, here,
  next,
}
use go_block_walk.Ranking.Quotas.{
  WithinQuotas, Found, on_named-WithinQuotas, first_available-WithinQuotas,
  record_success_of-WithinQuotas, record_failure_of-WithinQuotas, round_pool-WithinQuotas,
}

module _ {F : Type 0} (float : Float64 F) where
  module _ {W : Type 0} (sight : Sight W) where
    recorded-WithinQuotas :
        {A : Type 0} (zero : A) (charge : GoError → Bool) (name : Text) (reply : A × Option GoError)
        (pool : PoolState F) (w : W)
        → WithinQuotas pool.ordered_list
        → WithinQuotas (recorded float sight zero charge name reply (pool, w)).1.0.ordered_list
    unfolding recorded
    recorded-WithinQuotas zero charge name (result, none) pool w h =
        record_success_of-WithinQuotas float name (sight.clock w) pool h
    recorded-WithinQuotas zero charge name (result, some e) pool w h =
        elim (Bool-cases (charge e)) [
          | inl yes_charge ↦ rw yes_charge (record_failure_of-WithinQuotas float name e pool h)
          | inr no_charge ↦ rw no_charge h
        ]

    -- A method of a provider keeps its quota within the limit.
    abbrev Keeps : {A : Type 0} → Method F W A → Type 0
    Keeps method = (p : Provider F) (w : W) → IsWithin p.quota → IsWithin (method p w).1.0.quota

    after_call-WithinQuotas :
        (p p' : Provider F) (pool : PoolState F)
        → IsWithin p'.quota
        → WithinQuotas pool.ordered_list
        → WithinQuotas (after_call float sight p p' pool).ordered_list
    after_call-WithinQuotas p p' pool q h =
        on_named-WithinQuotas p.name _ pool.ordered_list (λ r u. q) h

    with_best-WithinQuotas :
        {A : Type 0} (zero : A) (charge : GoError → Bool) (method : Method F W A)
        (found : Option (Provider F)) (pool : PoolState F) (w : W)
        → Keeps method
        → Found found
        → WithinQuotas pool.ordered_list
        → WithinQuotas (with_best float sight zero charge method (found, pool) w).1.0.ordered_list
    unfolding with_best
    with_best-WithinQuotas zero charge method none pool w keeps f h = h
    with_best-WithinQuotas zero charge method (some p) pool w keeps f h =
        recorded-WithinQuotas zero charge p.name _ _ _
          (after_call-WithinQuotas p (method p w).1.0 pool (keeps p w f) h)

    with_best_unrecorded-WithinQuotas :
        {A : Type 0} (zero : A) (method : Method F W A) (found : Option (Provider F))
        (pool : PoolState F) (w : W)
        → Keeps method
        → Found found
        → WithinQuotas pool.ordered_list
        → WithinQuotas
            (with_best_unrecorded float sight zero method (found, pool) w).1.0.ordered_list
    unfolding with_best_unrecorded
    with_best_unrecorded-WithinQuotas zero method none pool w keeps f h = h
    with_best_unrecorded-WithinQuotas zero method (some p) pool w keeps f h =
        after_call-WithinQuotas p (method p w).1.0 pool (keeps p w f) h

    get_provider-WithinQuotas :
        (pool : PoolState F) (w : W)
        → WithinQuotas pool.ordered_list
        → let (found, pool') = get_provider float (sight.states w) (sight.clock w) pool in
          Found found × WithinQuotas pool'.ordered_list
    unfolding get_provider
    get_provider-WithinQuotas pool w h =
        first_available-WithinQuotas float (sight.states w) (sight.clock w) pool.ordered_list h

    fewer-WithinQuotas :
        (ps qs : List (Provider F))
        → ((q : Provider F) → In q qs → In q ps)
        → WithinQuotas ps
        → WithinQuotas qs
    fewer-WithinQuotas ps [] within h = tt
    fewer-WithinQuotas ps (q ∷ qs) within h = (
      All-In (λ p. IsWithin p.quota) ps h (within q (In.here refl)),
      fewer-WithinQuotas ps qs (λ r m. within r (In.there m)) h,
    )

module _ {F W : Type 0} (float : Float64 F) (sight : Sight W) (random : ℕ → F)
    (library_wait : Try W) (library_execute : (S : Type 0) → Try (S × W) → Try (S × W))
    (sleep : ℤ → Try W) where
  -- The method of a provider for some call of its client.
  pub data IsRpc (A : Type 0) : Method F W A → Type 0 where
    of_client :
        (zero : A) (client : Client W A)
        → IsRpc A
            (λ p w. rpc float sight.clock random library_wait library_execute sleep zero p client w)

  -- A charge of a parallel fetch: calls of `Consume` and `Remaining`.
  abbrev pub IsCharge : (QuotaManager → QuotaManager) → Type 0
  IsCharge charge = (q : QuotaManager) → Spends q (charge q)

  module _ (once : RunsOnce library_execute) where
    IsRpc-Keeps : {A : Type 0} (method : Method F W A) → IsRpc A method → Keeps float sight method
    IsRpc-Keeps _ (of_client zero client) p w h =
        rpc-IsWithin float sight.clock random library_wait library_execute sleep once p client zero
          w h

    Use-WithinQuotas :
        {pool : PoolState F} {w : W} {pool' : PoolState F} {w' : W}
        → Use float sight IsRpc IsCharge (λ _. Unit) pool w pool' w'
        → WithinQuotas pool.ordered_list
        → WithinQuotas pool'.ordered_list
    unfolding through through_unrecorded recalculate_scores sort_ordered_list
    Use-WithinQuotas {pool} {w = w} (calls zero charge method fair) h =
        let g = get_provider-WithinQuotas float sight pool w h in
        with_best-WithinQuotas float sight zero charge method _ _ w (IsRpc-Keeps method fair) g.0
          g.1
    Use-WithinQuotas {pool} {w = w} (calls_unrecorded zero method fair) h =
        let g = get_provider-WithinQuotas float sight pool w h in
        with_best_unrecorded-WithinQuotas float sight zero method _ _ w (IsRpc-Keeps method fair)
          g.0 g.1
    Use-WithinQuotas {pool} {w = w} (succeeds name any) h =
        record_success_of-WithinQuotas float name (sight.clock w) pool h
    Use-WithinQuotas {pool} (fails name e) h = record_failure_of-WithinQuotas float name e pool h
    Use-WithinQuotas {pool} (recalculates sort fewer) h =
        fewer-WithinQuotas float sight pool.ordered_list _ (fewer _ pool.ordered_list) h
    Use-WithinQuotas {pool} {w = w} looks h = (get_provider-WithinQuotas float sight pool w h).1
    Use-WithinQuotas {pool} {w = w} (backfills charges clock rs spends w') h =
        round_pool-WithinQuotas float (sight.states w) (sight.clock w) charges clock rs pool spends
          h
    Use-WithinQuotas (passes w') h = h

    -- While each provider of a pool is within its quota, each stays so, whatever calls of the pool's
    -- methods over any client, of RecordSuccess and of RecordFailure, recalculations, looks for a provider, parallel fetches and time follow,
    -- one after the other, with every attempt of a retry counted (the breaker runs a request once or
    -- not at all, sort.Slice adds no entry): the requests counted never exceed a limit above 0.
    pub pool-WithinQuotas :
        {pool : PoolState F} {w : W} {pool' : PoolState F} {w' : W}
        → WithinQuotas pool.ordered_list
        → Uses float sight IsRpc IsCharge (λ _. Unit) pool w pool' w'
        → WithinQuotas pool'.ordered_list
    pool-WithinQuotas h here = h
    pool-WithinQuotas h (next earlier step) = Use-WithinQuotas step (pool-WithinQuotas h earlier)
