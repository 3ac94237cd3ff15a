-- ===== src/Ranking/Stuck.antt =====
-- What becomes of an unhealthy provider in a pool whose calls come one after the other (pool.go).
use go_block_walk.Prelude.{
  ◌≡◌, ◌≢◌, ◌∙◌, refl, Bool, Bool-cases, Option, none, some, List, [], ◌∷◌, Text, In, All-In, inl,
  inr,
}
use go_block_walk.Prelude.Float.{Float64}
use go_block_walk.Errors.{GoError}
use go_block_walk.Provider.{Provider}
use go_block_walk.Ranking.{PoolState, get_provider, recalculate_scores, sort_ordered_list}
use go_block_walk.Quota.{QuotaManager}
use go_block_walk.Ranking.Uses.{
  Use, Uses, calls, calls_unrecorded, succeeds, fails, recalculates, looks, backfills, passes, here,
  next,
}
use go_block_walk.Ranking.Rounds.{round_pool-Down}
use go_block_walk.Ranking.Calls.{
  Sight, Method, recorded, with_best, through, with_best_unrecorded, through_unrecorded, after_call,
}
use go_block_walk.Ranking.Down.{
  Unhealthy, Down, Apart, on_named-Down, first_available-Down, record_success_of-Down,
  record_failure_of-Down,
}

module _ {F : Type 0} (float : Float64 F) where
  module _ {W : Type 0} (sight : Sight W) where
    after_call-Down :
        (name : Text) (p p' : Provider F) (pool : PoolState F)
        → Down name pool.ordered_list
        → Down name (after_call float sight p p' pool).ordered_list
    after_call-Down name p p' pool d =
        on_named-Down name p.name _ pool.ordered_list (λ q same u. u) d

    recorded-Down :
        {A : Type 0} (name n : Text) (zero : A) (charge : GoError → Bool)
        (reply : A × Option GoError) (pool : PoolState F) (w : W)
        → n ≢ name
        → Down name pool.ordered_list
        → Down name (recorded float sight zero charge n reply (pool, w)).1.0.ordered_list
    unfolding recorded
    recorded-Down name n zero charge (result, none) pool w other d =
        record_success_of-Down float name n (sight.clock w) pool other d
    recorded-Down name n zero charge (result, some e) pool w other d =
        elim (Bool-cases (charge e)) [
          | inl yes_charge ↦ rw yes_charge (record_failure_of-Down float name n e pool d)
          | inr no_charge ↦ rw no_charge d
        ]

    with_best-Down :
        {A : Type 0} (name : Text) (zero : A) (charge : GoError → Bool) (method : Method F W A)
        (found : Option (Provider F)) (pool : PoolState F) (w : W)
        → Apart float name found
        → Down name pool.ordered_list
        → Down name (with_best float sight zero charge method (found, pool) w).1.0.ordered_list
    unfolding with_best Apart
    with_best-Down name zero charge method none pool w apart d = d
    with_best-Down name zero charge method (some p) pool w apart d =
        recorded-Down name p.name zero charge (method p w).0
          (after_call float sight p (method p w).1.0 pool) (method p w).1.1 apart
          (after_call-Down name p (method p w).1.0 pool d)

    with_best_unrecorded-Down :
        {A : Type 0} (name : Text) (zero : A) (method : Method F W A) (found : Option (Provider F))
        (pool : PoolState F) (w : W)
        → Down name pool.ordered_list
        → Down name (with_best_unrecorded float sight zero method (found, pool) w).1.0.ordered_list
    unfolding with_best_unrecorded
    with_best_unrecorded-Down name zero method none pool w d = d
    with_best_unrecorded-Down name zero method (some p) pool w d =
        after_call-Down name p (method p w).1.0 pool d

    get_provider-Down :
        (name : Text) (pool : PoolState F) (w : W)
        → Down name pool.ordered_list
        → let (found, pool') = get_provider float (sight.states w) (sight.clock w) pool in
          Apart float name found × Down name pool'.ordered_list
    unfolding get_provider
    get_provider-Down name pool w d =
        first_available-Down float name (sight.states w) (sight.clock w) pool.ordered_list d

    Down-In :
        (name : Text) (ps qs : List (Provider F))
        → ((q : Provider F) → In q qs → In q ps)
        → Down name ps
        → Down name qs
    Down-In name ps [] within d = tt
    Down-In name ps (q ∷ qs) within d = (
      All-In (Unhealthy name) ps d (within q (In.here refl)),
      Down-In name ps qs (λ r m. within r (In.there m)) d,
    )

    module _ (Fair : (A : Type 0) → Method F W A → Type 0)
        (Charge : (QuotaManager → QuotaManager) → Type 0) where
      Use-Down :
          {pool : PoolState F} {w : W} {pool' : PoolState F} {w' : W} (name : Text)
          → Use float sight Fair Charge (λ n. n ≢ name) pool w pool' w'
          → Down name pool.ordered_list
          → Down name pool'.ordered_list
      unfolding through through_unrecorded recalculate_scores sort_ordered_list
      Use-Down {pool} {w = w} name (calls zero charge method fair) d =
          let g = get_provider-Down name pool w d in
          with_best-Down name zero charge method _ _ w g.0 g.1
      Use-Down {pool} {w = w} name (calls_unrecorded zero method fair) d =
          with_best_unrecorded-Down name zero method _ _ w (get_provider-Down name pool w d).1
      Use-Down {pool} {w = w} name (succeeds n other) d =
          record_success_of-Down float name n (sight.clock w) pool other d
      Use-Down {pool} name (fails n e) d = record_failure_of-Down float name n e pool d
      Use-Down {pool} name (recalculates sort fewer) d =
          Down-In name pool.ordered_list _ (fewer _ pool.ordered_list) d
      Use-Down {pool} {w = w} name looks d = (get_provider-Down name pool w d).1
      Use-Down {pool} {w = w} name (backfills charges clock rs fair w') d =
          round_pool-Down float name charges clock rs pool (sight.states w) (sight.clock w) d
      Use-Down name (passes w') d = d

      Uses-Down :
          (name : Text) {pool : PoolState F} {w : W} {pool' : PoolState F} {w' : W}
          → Uses float sight Fair Charge (λ n. n ≢ name) pool w pool' w'
          → Down name pool.ordered_list
          → Down name pool'.ordered_list
      Uses-Down name here d = d
      Uses-Down name (next earlier step) d = Use-Down name step (Uses-Down name earlier d)

      some-name : {q p : Provider F} → some q ≡ some p → q.name ≡ p.name
      some-name e = cc

      Apart-some :
          (name : Text) (found : Option (Provider F)) (p : Provider F)
          → found ≡ some p
          → Apart float name found
          → p.name ≢ name
      unfolding Apart
      Apart-some name none p e apart = absurd (cc)
      Apart-some name (some q) p e apart = λ n. apart (some-name e ∙ n)

      -- Once every provider of a name is unhealthy, it stays so, and GetProvider does not pick one of
      -- that name, whatever follows, one after the other: calls of the pool's RPC methods, direct calls
      -- of RecordFailure for any provider and of RecordSuccess for a provider of another name,
      -- recalculations, looks for a provider, parallel fetches and time (sort.Slice adds no entry).
      pub unhealthy_stays :
          {pool : PoolState F} {w : W} {pool' : PoolState F} {w' : W} (name : Text)
          → Down name pool.ordered_list
          → Uses float sight Fair Charge (λ n. n ≢ name) pool w pool' w'
          → Down name pool'.ordered_list
            × ((p : Provider F)
                → (get_provider float (sight.states w') (sight.clock w') pool').0 ≡ some p
                → p.name ≢ name)
      unhealthy_stays {pool' = pool'} {w' = w'} name d reach =
          let kept = Uses-Down name reach d in
          let g = get_provider-Down name pool' w' kept in
          (kept, λ p found. Apart-some name _ p found g.0)
