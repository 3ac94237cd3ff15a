-- ===== src/Ranking/Down.antt =====
-- The providers of a name are unhealthy: what the parts of Pool (pool.go) make of that.
use go_block_walk.Prelude.{
  ◌≡◌, ◌≢◌, ◌∙◌, sym, true, false, Bool-cases, Option, none, some, List, [], ◌∷◌, Text, All, arith,
  inl, inr,
}
use go_block_walk.Prelude.Int.{ℤ}
use go_block_walk.Prelude.Float.{Float64}
use go_block_walk.Prelude.Strings.{text_eq, eq_of_text_eq}
use go_block_walk.Errors.{GoError, errors_is, quota_exceeded}
use go_block_walk.Breaker.{State}
use go_block_walk.Provider.{Provider, is_available, record_success, record_failure}
use go_block_walk.Ranking.{
  PoolState, on_named, first_available, available_providers_snapshot, record_success_of,
  record_failure_of,
}

-- Every provider of that name is unhealthy.
abbrev pub Unhealthy : {F : Type 0} → Text → Provider F → Type 0
Unhealthy name p = p.name ≡ name → p.healthy ≡ false

abbrev pub Down : {F : Type 0} → Text → List (Provider F) → Type 0
Down name ps = All (Unhealthy name) ps

pub on_named-Down :
    {F : Type 0} (name n : Text) (f : Provider F → Provider F) (ps : List (Provider F))
    → ((p : Provider F) → p.name ≡ n → Unhealthy name p → Unhealthy name (f p))
    → Down name ps
    → Down name (on_named n f ps)
unfolding on_named
on_named-Down name n f [] keeps d = d
on_named-Down name n f (p ∷ ps) keeps d = elim (Bool-cases (text_eq p.name n)) [
  | inl same ↦
      (rw same (keeps p (eq_of_text_eq p.name n same) d.0), on_named-Down name n f ps keeps d.1)
  | inr other ↦ (rw other d.0, on_named-Down name n f ps keeps d.1)
]

module _ {F : Type 0} (float : Float64 F) where
  is_available-kept :
      (state : State) (now : ℤ) (p : Provider F)
      → let p' = (is_available float state now p).1 in (p'.name ≡ p.name) × (p'.healthy ≡ p.healthy)
  unfolding is_available
  is_available-kept state now p = ground arith

  is_available-healthy :
      (state : State) (now : ℤ) (p : Provider F)
      → (is_available float state now p).0 ≡ true
      → p.healthy ≡ true
  unfolding is_available
  is_available-healthy state now p h = ground arith

  Unhealthy-is_available :
      (name : Text) (state : State) (now : ℤ) (p : Provider F)
      → Unhealthy name p
      → Unhealthy name (is_available float state now p).1
  Unhealthy-is_available name state now p u e =
      let (n, h) = is_available-kept state now p in h ∙ u (sym n ∙ e)

  -- The provider that is found has another name, and the others are as before.
  unfoldable pub Apart : Text → Option (Provider F) → Type 0
  Apart name none = Unit
  Apart name (some p) = p.name ≢ name

  -- None of the providers that are available has the name, and the others are as before.
  pub snapshot-Down :
      (name : Text) (states : Text → State) (now : ℤ) (ps : List (Provider F))
      → Down name ps
      → let (out, ps') = available_providers_snapshot float states now ps in
        All (λ p. p.name ≢ name) out × Down name ps'
  unfolding available_providers_snapshot
  snapshot-Down name states now [] d = (tt, tt)
  snapshot-Down name states now (p ∷ ps) d =
      let u = Unhealthy-is_available name (states p.name) now p d.0 in
      let rest = snapshot-Down name states now ps d.1 in
      elim (Bool-cases (is_available float (states p.name) now p).0) [
        | inl on ↦ rw on (
          (
            λ e.
                let (n, h) = is_available-kept (states p.name) now p in
                let up = is_available-healthy (states p.name) now p on in
                let down = d.0 (sym n ∙ e) in absurd (cc),
            rest.0,
          ),
          (u, rest.1),
        )
        | inr off ↦ rw off (rest.0, (u, rest.1))
      ]

  pub first_available-Down :
      (name : Text) (states : Text → State) (now : ℤ) (ps : List (Provider F))
      → Down name ps
      → let (found, ps') = first_available float states now ps in Apart name found × Down name ps'
  unfolding first_available Apart
  first_available-Down name states now [] d = (tt, tt)
  first_available-Down name states now (p ∷ ps) d =
      let u = Unhealthy-is_available name (states p.name) now p d.0 in
      let rest = first_available-Down name states now ps d.1 in
      elim (Bool-cases (is_available float (states p.name) now p).0) [
        | inl on ↦ rw on (
          (λ e.
              let (n, h) = is_available-kept (states p.name) now p in
              let up = is_available-healthy (states p.name) now p on in
              let down = d.0 (sym n ∙ e) in absurd (cc)),
          (u, d.1),
        )
        | inr off ↦ rw off (rest.0, (u, rest.1))
      ]

  pub record_success_of-Down :
      (name n : Text) (now : ℤ) (pool : PoolState F)
      → n ≢ name
      → Down name pool.ordered_list
      → Down name (record_success_of float n now pool).ordered_list
  unfolding record_success_of record_success
  record_success_of-Down name n now pool other d =
      on_named-Down name n (record_success float now) pool.ordered_list
        (λ p same u e. absurd (other (sym same ∙ e))) d

  pub record_failure_of-Down :
      (name n : Text) (e : GoError) (pool : PoolState F)
      → Down name pool.ordered_list
      → Down name (record_failure_of float n e pool).ordered_list
  unfolding record_failure_of record_failure
  record_failure_of-Down name n e pool d =
      let lowered =
        on_named-Down name n (record_failure float) pool.ordered_list
          (λ p same u h. let down = u h in ground arith) d in
      elim (Bool-cases (errors_is e quota_exceeded)) [
        | inl quota ↦ rw quota d
        | inr counted ↦ rw counted lowered
      ]
