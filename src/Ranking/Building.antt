-- ===== src/Ranking/Building.antt =====
-- Which configurations NewPool of pool.go accepts.
use go_block_walk.Prelude.{
  ◌≡◌, ◌≢◌, ◌↔◌, refl, sym, subst, Bool, true, false, Bool-cases, Option, none, some, List, [], ◌∷◌,
  map, Text, In, In-cons, arith, inl, inr, if◌then◌else◌,
}
use go_block_walk.Prelude.Int.{ℤ, pos, ◌≤ℤ◌}
use go_block_walk.Prelude.Float.{Float64}
use go_block_walk.Prelude.Strings.{text_eq, text_eq_refl, eq_of_text_eq}
use go_block_walk.Errors.{GoError, ok}
use go_block_walk.Provider.{DialFunc, ProviderConfig, Provider}
use go_block_walk.Ranking.{PoolState, Sort, sort_ordered_list}
use go_block_walk.Ranking.New.{
  PoolConfig, mark, check_names, build_pool, new_pool, unless_refused, refusal,
}

-- No name is empty, and each one occurs once.
abbrev pub Named : List Text → Type 0
Named [] = Unit
Named (n ∷ ns) = (n ≢ []) × ¬ (In n ns) × Named ns

abbrev Unseen : (Text → Bool) → List Text → Type 0
Unseen seen ns = (n : Text) → In n ns → seen n ≡ false

abbrev pub names : {F : Type 0} → List (ProviderConfig F) → List Text
names pcs = map (λ pc. pc.name) pcs

mark-kept :
    (seen : Text → Bool) (name n : Text) → mark seen name n ≡ false → (n ≢ name) × (seen n ≡ false)
mark-kept seen name n h = elim (Bool-cases (text_eq n name)) [
  | inl same ↦ absurd (let on : mark seen name n ≡ true = rw same refl in cc)
  | inr other ↦ (
    λ e.
        let same : text_eq n name ≡ true = subst (λ m. text_eq n m ≡ true) e (text_eq_refl n) in
        absurd (cc),
    subst (λ b. (if b then true else seen n) ≡ false) other h,
  )
]

pub text_eq-ne : (s t : Text) → s ≢ t → text_eq s t ≡ false
text_eq-ne s t d = elim (Bool-cases (text_eq s t)) [
  | inl same ↦ absurd (d (eq_of_text_eq s t same))
  | inr other ↦ other
]

-- Which check a name passed.
check_names-cons :
    {F : Type 0} (quote : Text → Text) (seen : Text → Bool) (pc : ProviderConfig F)
    (rest : List (ProviderConfig F))
    → check_names quote seen (pc ∷ rest) ≡ none
    → (text_eq pc.name [] ≡ false)
      × (seen pc.name ≡ false)
      × (check_names quote (mark seen pc.name) rest ≡ none)
unfolding check_names
check_names-cons quote seen pc rest e = ground arith

ne-text_eq : (s t : Text) → text_eq s t ≡ false → s ≢ t
ne-text_eq s t d e =
    let same : text_eq s t ≡ true = subst (λ u. text_eq s u ≡ true) e (text_eq_refl s) in
    absurd (cc)

check_names-none :
    {F : Type 0} (quote : Text → Text) (seen : Text → Bool) (pcs : List (ProviderConfig F))
    → check_names quote seen pcs ≡ none
    → Named (names pcs) × Unseen seen (names pcs)
unfolding check_names
check_names-none quote seen [] e = (tt, λ n m. elim m [ ])
check_names-none quote seen (pc ∷ rest) e =
    let (full, fresh, later) = check_names-cons quote seen pc rest e in
    let (named, unseen) = check_names-none quote (mark seen pc.name) rest later in
    (
      (
        ne-text_eq pc.name [] full,
        (λ m. (mark-kept seen pc.name pc.name (unseen pc.name m)).0 refl),
        named,
      ),
      λ n m. elim (In-cons m) [
        | inl e ↦ subst (λ k. seen k ≡ false) (sym e) fresh
        | inr later_on ↦ (mark-kept seen pc.name n (unseen n later_on)).1
      ],
    )

check_names-accepts :
    {F : Type 0} (quote : Text → Text) (seen : Text → Bool) (pcs : List (ProviderConfig F))
    → Named (names pcs)
    → Unseen seen (names pcs)
    → check_names quote seen pcs ≡ none
unfolding check_names
check_names-accepts quote seen [] named unseen = refl
check_names-accepts quote seen (pc ∷ rest) (full, once, named) unseen =
    let full' = text_eq-ne pc.name [] full in
    let fresh = unseen pc.name (In.here refl) in
    let later = check_names-accepts quote (mark seen pc.name) rest named (λ n m.
      let other = text_eq-ne n pc.name (λ e. once (subst (λ k. In k (names rest)) e m)) in
      rw other (unseen n (In.there m))) in
    rw (full', fresh) later

module _ {F : Type 0} (float : Float64 F) where
  unless_refused-ok :
      (o : Option GoError) (built pool : PoolState F)
      → unless_refused float o built ≡ ok pool
      → (o ≡ none) × (built ≡ pool)
  unless_refused-ok none built pool e = (refl, cc)
  unless_refused-ok (some x) built pool e = absurd (cc)

  refusal-none :
      (quote : Text → Text) (pcs : List (ProviderConfig F))
      → (refusal float quote pcs ≡ none) ↔ (pcs ≢ []) × Named (names pcs)
  refusal-none quote [] = (λ e. absurd (cc), λ h. absurd (h.0 refl))
  refusal-none quote (pc ∷ rest) = (
    λ e. (λ n. absurd (cc), (check_names-none quote (λ _. false) (pc ∷ rest) e).0),
    λ h. check_names-accepts quote (λ _. false) (pc ∷ rest) h.1 (λ n m. refl),
  )

  build_pool-limits :
      (sort : Sort (Provider F)) (dial : DialFunc) (cfg : PoolConfig F) (now : Text → ℤ)
      → let pool = build_pool float sort dial cfg now in
        (pos 1 ≤ℤ pool.sizing.max_log_block_range) × (pos 1 ≤ℤ pool.update_interval)
  unfolding build_pool sort_ordered_list
  build_pool-limits sort dial cfg now = ground arith

  -- NewPool accepts a configuration exactly if it has a provider, no provider's name is empty and
  -- no name occurs twice; and the pool it then returns has a positive range of blocks and update
  -- interval.
  pub new_pool-ok_iff :
      (sort : Sort (Provider F)) (dial : DialFunc) (quote : Text → Text) (cfg : PoolConfig F)
      (now : Text → ℤ)
      → (((pool : PoolState F) × (new_pool float sort dial quote cfg now ≡ ok pool))
          ↔ (cfg.providers ≢ []) × Named (names cfg.providers))
        × ((pool : PoolState F)
            → new_pool float sort dial quote cfg now ≡ ok pool
            → (pos 1 ≤ℤ pool.sizing.max_log_block_range) × (pos 1 ≤ℤ pool.update_interval))
  unfolding new_pool
  new_pool-ok_iff sort dial quote cfg now =
      let built = build_pool float sort dial cfg now in
      let (accepted, accepts) = refusal-none quote cfg.providers in
      (
        (
          λ h. accepted (unless_refused-ok (refusal float quote cfg.providers) built h.0 h.1).0,
          λ h. (built, rw (accepts h) refl),
        ),
        λ pool e.
            let same = (unless_refused-ok (refusal float quote cfg.providers) built pool e).1 in
            subst (λ p. (pos 1 ≤ℤ p.sizing.max_log_block_range) × (pos 1 ≤ℤ p.update_interval)) same
              (build_pool-limits sort dial cfg now),
      )
