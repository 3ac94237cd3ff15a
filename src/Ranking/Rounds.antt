-- ===== src/Ranking/Rounds.antt =====
-- A parallel fetch of Pool (pool.go) leaves an unhealthy provider unhealthy: it has no worker.
use go_block_walk.Prelude.{ℕ, ◌≡◌, ◌≢◌, sym, subst, refl, List, [], ◌∷◌, Text, In, All, All-In, map}
use go_block_walk.Prelude.Int.{ℤ}
use go_block_walk.Prelude.Float.{Float64}
use go_block_walk.Breaker.{State}
use go_block_walk.Quota.{QuotaManager}
use go_block_walk.Provider.{Provider}
use go_block_walk.Ranking.{PoolState, available_providers_snapshot}
use go_block_walk.Ranking.Down.{Unhealthy, Down, snapshot-Down}
use go_block_walk.Parallel.Reports.{Report, round_pool}
use go_block_walk.Parallel.Reports.Others.{TakesPart, reported_pool-Others}

module _ {F : Type 0} (float : Float64 F) where
  Down-named :
      (name : Text) (ps qs : List (Provider F))
      → Down name ps
      → ((q : Provider F) → In q qs → q.name ≡ name → In q ps)
      → Down name qs
  Down-named name ps [] d within = tt
  Down-named name ps (q ∷ qs) d within = (
    λ same. All-In (Unhealthy name) ps d (within q (In.here refl) same) same,
    Down-named name ps qs d (λ r m. within r (In.there m)),
  )

  not_named :
      (name : Text) (ps : List (Provider F))
      → All (λ p. p.name ≢ name) ps
      → TakesPart (map (λ p. p.name) ps) name
      → ⊥
  not_named name [] apart m = elim m [ ]
  not_named name (p ∷ ps) apart (In.here e) = apart.0 (sym e)
  not_named name (p ∷ ps) apart (In.there m) = not_named name ps apart.1 m

  -- A provider that is down has no worker.
  pub round_pool-Down :
      (name : Text) (charges : ℕ → QuotaManager → QuotaManager) (clock : ℕ → ℤ) (rs : List Report)
      (pool : PoolState F) (states : Text → State) (now : ℤ)
      → Down name pool.ordered_list
      → Down name (round_pool float states now charges clock rs pool).ordered_list
  round_pool-Down name charges clock rs pool states now d =
      let s = snapshot-Down float name states now pool.ordered_list d in
      let found = available_providers_snapshot float states now pool.ordered_list in
      let kept =
        reported_pool-Others float charges clock (map (λ p. p.name) found.0) rs
          (record pool { ordered_list = found.1 }) in
      Down-named name found.1 _ s.1 (λ q m same.
        (kept.others q (λ part.
            not_named name found.0 s.0 (subst (TakesPart (map (λ p. p.name) found.0)) same part))).0
          m)
