-- ===== src/Setup/Restart.antt =====
-- A restart: what persistProviderState of indexer.go stores of a pool's providers in the storage in
-- memory, and what restoreProviderState then makes of providers that were built anew.
use go_block_walk.Prelude.{
  ◌≡◌, ◌≢◌, ◌∙◌, refl, sym, subst, Bool-cases, false, none, some, List, [], ◌∷◌, map, Text, codes,
  In, inl, inr, if◌then◌else◌,
}
use go_block_walk.Prelude.Int.{ℤ, pos, eqb_ℤ}
use go_block_walk.Prelude.Float.{Float64}
use go_block_walk.Prelude.Strings.{text_eq_refl}
use go_block_walk.Errors.{ok}
use go_block_walk.Breaker.{Try}
use go_block_walk.Quota.{usage, reset_times, restore_usage}
use go_block_walk.Memory.Quotas.{
  QuotaUsage, QuotaKey, MemoryQuotaStorage, key_eq, get_quota_usage, set_quota_usage,
  get-set_quota_usage,
}
use go_block_walk.Memory.Scores.{
  ProviderScore, MemoryScoreStorage, get_provider_score, set_provider_score, score_id, find_score,
}
use go_block_walk.Memory.Scores.Ids.{find-put_score}
use go_block_walk.Provider
use go_block_walk.Provider.{Provider, get_quota_reset, set_score, restore_quota_usage}
use go_block_walk.Ranking.{PoolState, adjusted_score, persist_quota_usage}
use go_block_walk.Ranking.Building.{Named, text_eq-ne}
use go_block_walk.Setup.{restore_one}

module _ {F : Type 0} (float : Float64 F) (now : ℤ) where
  -- The loop over GetScores, into the storage in memory: the providers in the order of the map's
  -- iteration, each stored with its adjusted score and a penalty of 0.
  unfoldable pub persist_scores_in :
      PoolState F → List (Provider F) → MemoryScoreStorage F → MemoryScoreStorage F
  persist_scores_in pool [] m = m
  persist_scores_in pool (p ∷ ps) m =
      persist_scores_in pool ps
        (set_provider_score m p.name (adjusted_score float pool p) (float.from_int (pos 0)) now)

  abbrev pub requests_of : Text → QuotaKey
  requests_of name = record { provider = name; quota_type = codes "requests" }

  abbrev pub set_requests : Text → ℤ → ℤ → Try MemoryQuotaStorage
  set_requests name used reset m = (none, set_quota_usage m (requests_of name) used reset now)

  persist_scores_in-other :
      (pool : PoolState F) (ps : List (Provider F)) (m : MemoryScoreStorage F) (name : Text)
      → ¬ (In name (map (λ p. p.name) ps))
      → get_provider_score (persist_scores_in pool ps m) name ≡ get_provider_score m name
  unfolding persist_scores_in get_provider_score set_provider_score
  persist_scores_in-other pool [] m name absent = refl
  persist_scores_in-other pool (p ∷ ps) m name absent =
      let m' =
        set_provider_score m p.name (adjusted_score float pool p) (float.from_int (pos 0)) now in
      let apart = text_eq-ne p.name name (λ e. absent (In.here (sym e))) in
      persist_scores_in-other pool ps m' name (λ i. absent (In.there i))
      ∙ rw (find-put_score _ m.scores name, apart) refl

  set_provider_score-read :
      (m : MemoryScoreStorage F) (name : Text) (score : F)
      → (s : ProviderScore F) × (get_provider_score
            (set_provider_score m name score (float.from_int (pos 0)) now)
            name
          ≡ some s)
        × (s.score ≡ score)
  unfolding get_provider_score set_provider_score
  set_provider_score-read m name score =
      let new : ProviderScore F = record {
        id = (score_id (find_score name m.scores) m.next_score_id).0;
        provider = name;
        score = score;
        penalty = float.from_int (pos 0);
        updated_at = now;
      } in
      (new, rw (find-put_score new m.scores name, text_eq_refl name) refl, refl)

  persist_scores_in-read :
      (pool : PoolState F) (ps : List (Provider F)) (m : MemoryScoreStorage F) (p : Provider F)
      → Named (map (λ p. p.name) ps)
      → In p ps
      → (s : ProviderScore F) × (get_provider_score (persist_scores_in pool ps m) p.name ≡ some s)
        × (s.score ≡ adjusted_score float pool p)
  unfolding persist_scores_in get_provider_score set_provider_score
  persist_scores_in-read pool [] m p named i = elim i [ ]
  persist_scores_in-read pool (x ∷ ps) m p named (In.there i) =
      persist_scores_in-read pool ps
        (set_provider_score m x.name (adjusted_score float pool x) (float.from_int (pos 0)) now) p
        named.2 i
  persist_scores_in-read pool (x ∷ ps) m p named (In.here e) =
      let m' =
        set_provider_score m x.name (adjusted_score float pool x) (float.from_int (pos 0)) now in
      let kept = persist_scores_in-other pool ps m' x.name named.1 in
      let own = set_provider_score-read m x.name (adjusted_score float pool x) in
      subst
        (λ y.
          (s : ProviderScore F) × (get_provider_score (persist_scores_in pool ps m') y.name
            ≡ some s)
          × (s.score ≡ adjusted_score float pool y))
        (sym e) (own.0, kept ∙ own.1, own.2)

  abbrev stored_quotas : List (Provider F) → MemoryQuotaStorage → MemoryQuotaStorage
  stored_quotas ps k = (persist_quota_usage float set_requests ps k).1

  key_eq-requests : (a b : Text) → a ≢ b → key_eq (requests_of a) (requests_of b) ≡ false
  unfolding key_eq
  key_eq-requests a b d = rw (text_eq-ne a b d) refl

  persist_quota_usage-other :
      (ps : List (Provider F)) (k : MemoryQuotaStorage) (name : Text)
      → ¬ (In name (map (λ p. p.name) ps))
      → get_quota_usage (stored_quotas ps k) (requests_of name)
        ≡ get_quota_usage k (requests_of name)
  unfolding persist_quota_usage go_block_walk.Provider.get_quota_usage get_quota_reset usage
      reset_times
  persist_quota_usage-other [] k name absent = refl
  persist_quota_usage-other (p ∷ ps) k name absent =
      let k' = set_quota_usage k (requests_of p.name) p.quota.used p.quota.reset_time now in
      let apart = key_eq-requests name p.name (λ e. absent (In.here e)) in
      persist_quota_usage-other ps k' name (λ i. absent (In.there i))
      ∙ (get-set_quota_usage k (requests_of p.name) p.quota.used p.quota.reset_time now).1
          (requests_of name) apart

  persist_quota_usage-read :
      (ps : List (Provider F)) (k : MemoryQuotaStorage) (p : Provider F)
      → Named (map (λ p. p.name) ps)
      → In p ps
      → (u : QuotaUsage) × (get_quota_usage (stored_quotas ps k) (requests_of p.name) ≡ some u)
        × (u.used ≡ p.quota.used)
        × (u.reset_at ≡ p.quota.reset_time)
  unfolding persist_quota_usage go_block_walk.Provider.get_quota_usage get_quota_reset usage
      reset_times
  persist_quota_usage-read [] k p named i = elim i [ ]
  persist_quota_usage-read (x ∷ ps) k p named (In.there i) =
      persist_quota_usage-read ps
        (set_quota_usage k (requests_of x.name) x.quota.used x.quota.reset_time now) p named.2 i
  persist_quota_usage-read (x ∷ ps) k p named (In.here e) =
      let k' = set_quota_usage k (requests_of x.name) x.quota.used x.quota.reset_time now in
      let kept = persist_quota_usage-other ps k' x.name named.1 in
      let own =
        (get-set_quota_usage k (requests_of x.name) x.quota.used x.quota.reset_time now).0 in
      subst
        (λ y.
          (u : QuotaUsage) × (get_quota_usage (stored_quotas ps k') (requests_of y.name) ≡ some u)
          × (u.used ≡ y.quota.used)
          × (u.reset_at ≡ y.quota.reset_time))
        (sym e) (_, kept ∙ own, refl, refl)

  -- Once the state of a pool's providers, whose names are different, has been stored in the storage
  -- in memory, whatever that held, a provider of one of those names that is built anew and restored
  -- has the score that was the adjusted one of the old provider, that is, with its penalty taken
  -- off; it has used as much of its quota, with the limit that it is built with, and its period
  -- ends with the old one's, if that is set. Everything else of it is as it was built.
  pub restore_one-persist :
      (pool : PoolState F) (ps : List (Provider F)) (m : MemoryScoreStorage F)
      (k : MemoryQuotaStorage) (p q : Provider F)
      → Named (map (λ p. p.name) ps)
      → In p ps
      → q.name ≡ p.name
      → let m' = persist_scores_in pool ps m in
        let k' = (persist_quota_usage float set_requests ps k).1 in
        let q' =
          restore_one float
            (some (λ n. ok (get_provider_score m' n)))
            (some (λ n. ok (get_quota_usage k' (requests_of n))))
            q in
        q' ≡ record q {
          current_score = float.minus p.current_score (pool.penalties p.name);
          quota = record q.quota {
            used = p.quota.used;
            reset_time =
                if eqb_ℤ p.quota.reset_time (pos 0) then q.quota.reset_time else p.quota.reset_time;
          };
        }
  unfolding restore_one set_score restore_quota_usage restore_usage adjusted_score
  restore_one-persist pool ps m k p q named i same =
      let (s, read, scored) = persist_scores_in-read pool ps m p named i in
      let (u, read_quota, used, reset) = persist_quota_usage-read ps k p named i in
      elim (Bool-cases (eqb_ℤ p.quota.reset_time (pos 0))) [
        | inl unset ↦ rw (same, read, read_quota, scored, used, reset, unset) refl
        | inr set ↦ rw (same, read, read_quota, scored, used, reset, set) refl
      ]
