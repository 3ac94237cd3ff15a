-- ===== src/Memory/Scores/Ids.antt =====
-- What the score storage of memoryscore.go holds: reads after writes, and its ids.
use go_block_walk.Prelude.{
  ℕ, ◌≡◌, ◌≢◌, ◌≤◌, ◌∙◌, refl, sym, subst, ap, Bool-cases, true, false, Option-cases, some, List,
  [], ◌∷◌, Text, All, arith, inl, inr, if◌then◌else◌,
}
use go_block_walk.Prelude.Int.{ℤ}
use go_block_walk.Prelude.Strings.{text_eq, text_eq_refl, eq_of_text_eq}
use go_block_walk.Memory.Scores.{
  ProviderScore, MemoryScoreStorage, find_score, put_score, score_id, get_provider_score,
  set_provider_score,
}

text_eq_agree : (s t u : Text) → text_eq s t ≡ true → text_eq s u ≡ text_eq t u
text_eq_agree s t u e = ap (λ x. text_eq x u) (eq_of_text_eq s t e)

text_eq_apart : (s t u : Text) → text_eq s t ≡ false → text_eq s u ≡ true → text_eq t u ≡ false
text_eq_apart s t u d e = elim (Bool-cases (text_eq t u)) [
  | inl same ↦
      let agree : text_eq s t ≡ text_eq s u = ap (λ x. text_eq s x) (eq_of_text_eq t u same) in
      absurd (cc)
  | inr other ↦ other
]

text_eq_other : (s t : Text) → text_eq s t ≡ false → s ≢ t
text_eq_other s t d e =
    let same : text_eq s t ≡ true = subst (λ u. text_eq s u ≡ true) e (text_eq_refl s) in
    absurd (cc)

module _ {F : Type 0} where
  pub find-put_score :
      (new : ProviderScore F) (ss : List (ProviderScore F)) (provider : Text)
      → find_score provider (put_score new ss)
        ≡ (if text_eq new.provider provider then some new else find_score provider ss)
  unfolding find_score put_score
  find-put_score new [] provider = refl
  find-put_score new (s ∷ ss) provider = ground (
    arith,
    find-put_score new ss provider,
    text_eq_agree s.provider new.provider provider,
    text_eq_apart s.provider new.provider provider,
  )

  -- Two entries share neither an id nor a provider.
  abbrev pub Apart : ProviderScore F → ProviderScore F → Type 0
  Apart s t = (s.id ≢ t.id) × (s.provider ≢ t.provider)

  abbrev pub Separate : List (ProviderScore F) → Type 0
  Separate [] = Unit
  Separate (s ∷ ss) = All (Apart s) ss × Separate ss

  abbrev pub Numbered : ℕ → ProviderScore F → Type 0
  Numbered next s = (1 ≤ s.id) × (s.id ≤ next)

  pub record IsScoreStore (m : MemoryScoreStorage F) : Type 0 where
    pub separate : Separate m.scores
    pub numbered : All (Numbered m.next_score_id) m.scores

  map_All :
      {P Q : ProviderScore F → Type 0} (ss : List (ProviderScore F))
      → ((s : ProviderScore F) → P s → Q s)
      → All P ss
      → All Q ss
  map_All [] f a = tt
  map_All (s ∷ ss) f a = (f s a.0, map_All ss f a.1)

  some-score : {s t : ProviderScore F} → some s ≡ some t → s ≡ t
  some-score e = cc

  new-Apart :
      (new s : ProviderScore F)
      → s.provider ≡ new.provider
      → (ss : List (ProviderScore F)) → All (λ t. t.provider ≢ new.provider → t.id ≢ new.id) ss
      → All (Apart s) ss
      → All (Apart new) ss
  new-Apart new s e [] others a = tt
  new-Apart new s e (t ∷ ss) others a =
      let differs : t.provider ≢ new.provider = λ d. a.0.1 (e ∙ sym d) in
      ((λ i. others.0 differs (sym i), λ d. differs (sym d)), new-Apart new s e ss others.1 a.1)

  All-put_score :
      (P : ProviderScore F → Type 0) (new : ProviderScore F) (ss : List (ProviderScore F))
      → P new
      → All P ss
      → All P (put_score new ss)
  unfolding put_score
  All-put_score P new [] n a = (n, tt)
  All-put_score P new (s ∷ ss) n a = elim (Bool-cases (text_eq s.provider new.provider)) [
    | inl same ↦ rw same (n, a.1)
    | inr other ↦ rw other (a.0, All-put_score P new ss n a.1)
  ]

  All-find_score :
      (P : ProviderScore F → Type 0) (provider : Text) (ss : List (ProviderScore F))
      (found : ProviderScore F)
      → find_score provider ss ≡ some found
      → All P ss
      → P found
  unfolding find_score
  All-find_score P provider [] found e a = absurd (cc)
  All-find_score P provider (s ∷ ss) found e a = elim (Bool-cases (text_eq s.provider provider)) [
    | inl same ↦ let first : some s ≡ some found = ground arith in subst P (some-score first) a.0
    | inr other ↦ All-find_score P provider ss found (ground arith) a.1
  ]

  -- The ids of the entries of other providers differ from the one that is found.
  find_score-Separate :
      (provider : Text) (ss : List (ProviderScore F)) (found : ProviderScore F)
      → find_score provider ss ≡ some found
      → Separate ss
      → All (λ t. t.provider ≢ provider → t.id ≢ found.id) ss
  unfolding find_score
  find_score-Separate provider [] found e a = tt
  find_score-Separate provider (s ∷ ss) found e a =
      elim (Bool-cases (text_eq s.provider provider)) [
        | inl same ↦
            let first : some s ≡ some found = ground arith in
            let s_found = some-score first in
            (
              λ other. absurd (other (eq_of_text_eq s.provider provider same)),
              map_All ss (λ t apart other i. apart.0 (ap (λ x. x.id) s_found ∙ sym i)) a.0,
            )
        | inr other ↦
            let later : find_score provider ss ≡ some found = ground arith in
            (
              λ _. (All-find_score (Apart s) provider ss found later a.0).0,
              find_score-Separate provider ss found later a.1,
            )
      ]

  put_score-Separate :
      (new : ProviderScore F) (ss : List (ProviderScore F))
      → All (λ t. t.provider ≢ new.provider → t.id ≢ new.id) ss
      → Separate ss
      → Separate (put_score new ss)
  unfolding put_score
  put_score-Separate new [] others a = (tt, tt)
  put_score-Separate new (s ∷ ss) others a = elim (Bool-cases (text_eq s.provider new.provider)) [
    | inl same ↦
        let e = eq_of_text_eq s.provider new.provider same in
        rw same (new-Apart new s e ss others.1 a.0, a.1)
    | inr other ↦
        let differs = text_eq_other s.provider new.provider other in
        rw other (
          All-put_score (Apart s) new ss (others.0 differs, differs) a.0,
          put_score-Separate new ss others.1 a.1,
        )
  ]

  -- The id that is stored under differs from those of the other providers, and the counter covers it.
  score_id-fresh :
      (m : MemoryScoreStorage F) (provider : Text)
      → IsScoreStore m
      → let (id, next) = score_id (find_score provider m.scores) m.next_score_id in
        All (λ t. t.provider ≢ provider → t.id ≢ id) m.scores
        × (1 ≤ id)
        × (id ≤ next)
        × (m.next_score_id ≤ next)
  score_id-fresh m provider inv = elim (Option-cases (find_score provider m.scores)) [
    | inl absent ↦ rw absent (
      map_All m.scores (λ t n _ i. absurd (omega (arith, n.1))) inv.numbered,
      omega arith,
      omega arith,
      omega arith,
    )
    | inr (found, e) ↦
        let n = All-find_score (Numbered m.next_score_id) provider m.scores found e inv.numbered in
        rw e (find_score-Separate provider m.scores found e inv.separate, n.0, n.1, omega arith)
  ]

  -- SetProviderScore keeps the ids positive and not above the counter, and different for different
  -- providers, of which each occurs once; after it a read of that provider gives what was written,
  -- under the id that it had, or a new one; and the other providers read as before.
  pub set_provider_score-IsScoreStore :
      (m : MemoryScoreStorage F) (provider : Text) (score penalty : F) (now : ℤ)
      → IsScoreStore m
      → let m' = set_provider_score m provider score penalty now in
        IsScoreStore m'
        × (get_provider_score m' provider
            ≡ some (record {
              id = (score_id (find_score provider m.scores) m.next_score_id).0;
              provider = provider;
              score = score;
              penalty = penalty;
              updated_at = now;
            }))
        × ((q : Text)
            → text_eq provider q ≡ false
            → get_provider_score m' q ≡ get_provider_score m q)
  unfolding set_provider_score get_provider_score
  set_provider_score-IsScoreStore m provider score penalty now inv =
      let (id, next) = score_id (find_score provider m.scores) m.next_score_id in
      let new : ProviderScore F = record {
        id = id;
        provider = provider;
        score = score;
        penalty = penalty;
        updated_at = now;
      } in
      let (fresh, positive, covered, grown) = score_id-fresh m provider inv in
      (
        record {
          separate = put_score-Separate new m.scores fresh inv.separate;
          numbered =
              All-put_score (Numbered next) new m.scores (positive, covered)
                (map_All m.scores (λ s n. (n.0, omega (arith, n.1))) inv.numbered);
        },
        rw (find-put_score new m.scores provider, text_eq_refl provider) refl,
        λ q other. rw (find-put_score new m.scores q, other) refl,
      )
