-- ===== src/Ranking/Quotas.antt =====
-- The quotas of a pool's providers (pool.go over provider.go): no use of the pool exceeds them.
use go_block_walk.Prelude.{
  ℕ, arith, ◌⊎◌, sym, ◌≡◌, subst, Bool-cases, inl, inr, Option, none, some, List, [], ◌∷◌, Text,
  All, length,
}
use go_block_walk.Prelude.Int.{ℤ}
use go_block_walk.Prelude.Float.{Float64}
use go_block_walk.Prelude.Strings.{text_eq}
use go_block_walk.Errors.{GoError, errors_is, quota_exceeded}
use go_block_walk.Breaker.{State}
use go_block_walk.Quota.{QuotaManager, remaining}
use go_block_walk.Quota.Bounds.{IsWithin, Spends, Spends-IsWithin, remaining-IsWithin}
use go_block_walk.Provider.{Provider, is_available, record_success, record_failure}
use go_block_walk.Ranking.{
  PoolState, on_named, first_available, available_providers_snapshot, record_success_of,
  record_failure_of,
}
use go_block_walk.Parallel.Reports.{Report, report_of, reported_pool, round_pool}

-- Each provider's counter of requests is at most its limit, if it has one.
abbrev pub WithinQuotas : {F : Type 0} → List (Provider F) → Type 0
WithinQuotas ps = All (λ p. IsWithin p.quota) ps

pub on_named-WithinQuotas :
    {F : Type 0} (name : Text) (f : Provider F → Provider F) (ps : List (Provider F))
    → ((p : Provider F) → IsWithin p.quota → IsWithin (f p).quota)
    → WithinQuotas ps
    → WithinQuotas (on_named name f ps)
unfolding on_named
on_named-WithinQuotas name f [] keeps h = tt
on_named-WithinQuotas name f (p ∷ ps) keeps h = elim (Bool-cases (text_eq p.name name)) [
  | inl same ↦ (rw same (keeps p h.0), on_named-WithinQuotas name f ps keeps h.1)
  | inr other ↦ (rw other h.0, on_named-WithinQuotas name f ps keeps h.1)
]

abbrev pub Found : {F : Type 0} → Option (Provider F) → Type 0
Found none = Unit
Found (some p) = IsWithin p.quota

module _ {F : Type 0} (float : Float64 F) where
  is_available-quota :
      (state : State) (now : ℤ) (p : Provider F)
      → let q = (is_available float state now p).1.quota in
        (q ≡ p.quota) ⊎ (q ≡ (remaining p.quota now).1)
  unfolding is_available
  is_available-quota state now p = ground arith

  is_available-IsWithin :
      (state : State) (now : ℤ) (p : Provider F)
      → IsWithin p.quota
      → IsWithin (is_available float state now p).1.quota
  is_available-IsWithin state now p h = elim (is_available-quota state now p) [
    | inl same ↦ subst IsWithin (sym same) h
    | inr looked ↦ subst IsWithin (sym looked) (remaining-IsWithin p.quota now h)
  ]

  pub first_available-WithinQuotas :
      (states : Text → State) (now : ℤ) (ps : List (Provider F))
      → WithinQuotas ps
      → let (found, ps') = first_available float states now ps in Found found × WithinQuotas ps'
  unfolding first_available
  first_available-WithinQuotas states now [] h = (tt, tt)
  first_available-WithinQuotas states now (p ∷ ps) h =
      let u = is_available-IsWithin (states p.name) now p h.0 in
      let rest = first_available-WithinQuotas states now ps h.1 in
      elim (Bool-cases (is_available float (states p.name) now p).0) [
        | inl on ↦ rw on (u, (u, h.1))
        | inr off ↦ rw off (rest.0, (u, rest.1))
      ]

  snapshot-WithinQuotas :
      (states : Text → State) (now : ℤ) (ps : List (Provider F))
      → WithinQuotas ps
      → WithinQuotas (available_providers_snapshot float states now ps).1
  unfolding available_providers_snapshot
  snapshot-WithinQuotas states now [] h = tt
  snapshot-WithinQuotas states now (p ∷ ps) h =
      (is_available-IsWithin (states p.name) now p h.0, snapshot-WithinQuotas states now ps h.1)

  pub record_success_of-WithinQuotas :
      (name : Text) (now : ℤ) (pool : PoolState F)
      → WithinQuotas pool.ordered_list
      → WithinQuotas (record_success_of float name now pool).ordered_list
  unfolding record_success_of record_success
  record_success_of-WithinQuotas name now pool h =
      on_named-WithinQuotas name (record_success float now) pool.ordered_list (λ p q. q) h

  pub record_failure_of-WithinQuotas :
      (name : Text) (e : GoError) (pool : PoolState F)
      → WithinQuotas pool.ordered_list
      → WithinQuotas (record_failure_of float name e pool).ordered_list
  unfolding record_failure_of record_failure
  record_failure_of-WithinQuotas name e pool h = elim (Bool-cases (errors_is e quota_exceeded)) [
    | inl quota ↦ rw quota h
    | inr other ↦
        rw other (on_named-WithinQuotas name (record_failure float) pool.ordered_list (λ p q. q) h)
  ]

  report_of-WithinQuotas :
      (charge : QuotaManager → QuotaManager) (now : ℤ) (who : Option Text)
      (failure : Option GoError) (pool : PoolState F)
      → ((q : QuotaManager) → Spends q (charge q))
      → WithinQuotas pool.ordered_list
      → WithinQuotas (report_of float charge now who failure pool).ordered_list
  unfolding report_of
  report_of-WithinQuotas charge now none failure pool spends h = h
  report_of-WithinQuotas charge now (some name) none pool spends h =
      record_success_of-WithinQuotas name now _ (
        on_named-WithinQuotas name _ pool.ordered_list (λ p q. Spends-IsWithin (spends p.quota) q)
          h)
  report_of-WithinQuotas charge now (some name) (some e) pool spends h =
      record_failure_of-WithinQuotas name e _ (
        on_named-WithinQuotas name _ pool.ordered_list (λ p q. Spends-IsWithin (spends p.quota) q)
          h)

  reported_pool-WithinQuotas :
      (charges : ℕ → QuotaManager → QuotaManager) (clock : ℕ → ℤ) (names : List Text)
      (rs : List Report) (pool : PoolState F)
      → ((n : ℕ) (q : QuotaManager) → Spends q (charges n q))
      → WithinQuotas pool.ordered_list
      → WithinQuotas (reported_pool float charges clock names rs pool).ordered_list
  unfolding reported_pool
  reported_pool-WithinQuotas charges clock names [] pool spends h = h
  reported_pool-WithinQuotas charges clock names (r ∷ earlier) pool spends h =
      report_of-WithinQuotas (charges (length earlier)) (clock (length earlier)) _ r.failure _
        (spends (length earlier))
        (reported_pool-WithinQuotas charges clock names earlier pool spends h)

  pub round_pool-WithinQuotas :
      (states : Text → State) (now : ℤ) (charges : ℕ → QuotaManager → QuotaManager) (clock : ℕ → ℤ)
      (rs : List Report) (pool : PoolState F)
      → ((n : ℕ) (q : QuotaManager) → Spends q (charges n q))
      → WithinQuotas pool.ordered_list
      → WithinQuotas (round_pool float states now charges clock rs pool).ordered_list
  round_pool-WithinQuotas states now charges clock rs pool spends h =
      reported_pool-WithinQuotas charges clock _ rs _ spends
        (snapshot-WithinQuotas states now pool.ordered_list h)
