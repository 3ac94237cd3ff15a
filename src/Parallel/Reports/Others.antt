-- ===== src/Parallel/Reports/Others.antt =====
-- What the reports of a round (pool.go) leave as it was.
use go_block_walk.Prelude.{
  ℕ, zero, suc, ◌≡◌, ◌≢◌, ◌↔◌, refl, sym, ◌∙◌, subst, Bool-cases, inl, inr, Option, none, some,
  List, [], ◌∷◌, map, Text, In, In-cons, length, ap,
}
use go_block_walk.Prelude.Int.{ℤ}
use go_block_walk.Prelude.Float.{Float64}
use go_block_walk.Prelude.Strings.{text_eq, eq_of_text_eq}
use go_block_walk.Errors.{GoError, errors_is, quota_exceeded}
use go_block_walk.Quota.{QuotaManager}
use go_block_walk.Provider.{Provider, record_success, record_failure}
use go_block_walk.Ranking.{PoolState, on_named, record_success_of, record_failure_of}
use go_block_walk.Parallel.Reports.{Report, name_at, charge_with, report_of, reported_pool}

module _ {F : Type 0} where
  -- From `ps` to `qs` only providers of these names change, and none its name.
  pub record Others (Named : Text → Type 0) (ps qs : List (Provider F)) : Type 0 where
    pub names : map (λ p. p.name) qs ≡ map (λ p. p.name) ps
    pub others : (p : Provider F) → (Named p.name → ⊥) → In p qs ↔ In p ps

  Others-refl : (Named : Text → Type 0) (ps : List (Provider F)) → Others Named ps ps
  Others-refl Named ps = record { names = refl; others = λ p a. (λ i. i, λ i. i) }

  Others-trans :
      (Named : Text → Type 0) (ps qs rs : List (Provider F))
      → Others Named ps qs
      → Others Named qs rs
      → Others Named ps rs
  Others-trans Named ps qs rs a b = record {
    names = b.names ∙ a.names;
    others = λ p n.
        (λ i. (a.others p n).0 ((b.others p n).0 i), λ i. (b.others p n).1 ((a.others p n).1 i));
  }

  on_named-names :
      (name : Text) (f : Provider F → Provider F) (ps : List (Provider F))
      → ((p : Provider F) → (f p).name ≡ p.name)
      → map (λ p. p.name) (on_named name f ps) ≡ map (λ p. p.name) ps
  unfolding on_named
  on_named-names name f [] same = refl
  on_named-names name f (p ∷ ps) same = elim (Bool-cases (text_eq p.name name)) [
    | inl e ↦ rw (e, same p, on_named-names name f ps same) refl
    | inr e ↦ rw (e, on_named-names name f ps same) refl
  ]

  In-cons_iff :
      {p q q' : Provider F} {ps ps' : List (Provider F)}
      → (p ≡ q) ↔ (p ≡ q')
      → In p ps ↔ In p ps'
      → In p (q ∷ ps) ↔ In p (q' ∷ ps')
  In-cons_iff h t = (
    λ i. elim (In-cons i) [ inl e ↦ In.here (h.0 e) | inr m ↦ In.there (t.0 m) ],
    λ i. elim (In-cons i) [ inl e ↦ In.here (h.1 e) | inr m ↦ In.there (t.1 m) ],
  )

  on_named-others :
      (name : Text) (f : Provider F → Provider F) (ps : List (Provider F)) (p : Provider F)
      → ((p : Provider F) → (f p).name ≡ p.name)
      → p.name ≢ name
      → In p (on_named name f ps) ↔ In p ps
  unfolding on_named
  on_named-others name f [] p same other = (λ i. i, λ i. i)
  on_named-others name f (q ∷ ps) p same other =
      In-cons_iff
        (elim (Bool-cases (text_eq q.name name)) [
          | inl e ↦
              let n = eq_of_text_eq q.name name e in
              rw e (
                λ x. absurd (other (ap (λ y. y.name) x ∙ same q ∙ n)),
                λ x. absurd (other (ap (λ y. y.name) x ∙ n)),
              )
          | inr e ↦ rw e (λ x. x, λ x. x)
        ])
        (on_named-others name f ps p same other)

  -- A change of one of the named providers.
  Others-on_named :
      (Named : Text → Type 0) (name : Text) (f : Provider F → Provider F) (ps : List (Provider F))
      → ((p : Provider F) → (f p).name ≡ p.name)
      → Named name
      → Others Named ps (on_named name f ps)
  Others-on_named Named name f ps same mine = record {
    names = on_named-names name f ps same;
    others = λ p n. on_named-others name f ps p same (λ e. n (subst Named (sym e) mine));
  }

In-name_at : (names : List Text) (i : ℕ) (name : Text) → name_at names i ≡ some name → In name names
In-name_at [] i name e = absurd (cc)
In-name_at (n ∷ names) zero name e = let q : name ≡ n = cc in In.here q
In-name_at (n ∷ names) (suc i) name e = In.there (In-name_at names i name e)

-- The provider of that name has a worker.
abbrev pub TakesPart : List Text → Text → Type 0
TakesPart names name = In name names

module _ {F : Type 0} (float : Float64 F) (charges : ℕ → QuotaManager → QuotaManager)
    (clock : ℕ → ℤ) (names : List Text) where
  report_of-Others :
      (charge : QuotaManager → QuotaManager) (now : ℤ) (who : Option Text)
      (failure : Option GoError) (pool : PoolState F)
      → ((name : Text) → who ≡ some name → In name names)
      → Others
          (TakesPart names)
          pool.ordered_list
          (report_of float charge now who failure pool).ordered_list
  unfolding report_of record_success_of record_failure_of record_success record_failure
  report_of-Others charge now none failure pool mine =
      Others-refl (TakesPart names) pool.ordered_list
  report_of-Others charge now (some name) none pool mine =
      Others-trans (TakesPart names) _ _ _
        (Others-on_named (TakesPart names) name (charge_with charge) _ (λ p. refl) (mine name refl))
        (Others-on_named (TakesPart names) name (record_success float now) _ (λ p. refl)
          (mine name refl))
  report_of-Others charge now (some name) (some e) pool mine =
      let charged =
        Others-on_named (TakesPart names) name (charge_with charge) pool.ordered_list (λ p. refl)
          (mine name refl) in
      elim (Bool-cases (errors_is e quota_exceeded)) [
        | inl quota ↦ rw quota charged
        | inr other ↦ rw other (
            Others-trans (TakesPart names) _ _ _ charged (
              Others-on_named (TakesPart names) name (record_failure float) _ (λ p. refl)
                (mine name refl)))
      ]

  -- Whatever the workers of a round report, whatever their fetches are charged and at what instants,
  -- the pool has the same providers by name, in the same order, and each provider that takes no part in
  -- the round is as it was.
  pub reported_pool-Others :
      (rs : List Report) (pool : PoolState F)
      → let after = reported_pool float charges clock names rs pool in
        Others (TakesPart names) pool.ordered_list after.ordered_list
  unfolding reported_pool
  reported_pool-Others [] pool = Others-refl (TakesPart names) pool.ordered_list
  reported_pool-Others (r ∷ earlier) pool =
      Others-trans (TakesPart names) _ _ _ (reported_pool-Others earlier pool) (
        report_of-Others (charges (length earlier)) (clock (length earlier))
          (name_at names r.worker) r.failure (reported_pool float charges clock names earlier pool)
          (λ name e. In-name_at names r.worker name e))
