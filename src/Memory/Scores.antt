-- ===== src/Memory/Scores.antt =====
-- memoryscore.go: MemoryScoreStorage, with ProviderScore of ports.go; memory.go: Memory. The map is
-- the list of its values, one for each provider, in the order of its iteration.
pub mod Ids
mod Tests
use go_block_walk.Prelude.{
  ℕ, suc, ◌+◌, ◌≡◌, ◌≢◌, ◌≤◌, ◌∙◌, refl, sym, subst, Bool, Bool-cases, true, false, Option, none,
  some, List, [], ◌∷◌, Text, All, arith, inl, inr, ◌<◌, ◌&&◌, ltb, ◌==◌, if◌then◌else◌,
}
use go_block_walk.Prelude.Int.{ℤ}
use go_block_walk.Prelude.Strings.{text_eq, text_eq_refl, eq_of_text_eq}
use go_block_walk.Memory.{MemoryChainStorage, new_memory_chain_storage}
use go_block_walk.Memory.Quotas.{MemoryQuotaStorage, new_memory_quota_storage}

pub record ProviderScore (F : Type 0) : Type 0 where
  pub id : ℕ
  pub provider : Text
  pub score : F
  pub penalty : F
  pub updated_at : ℤ

pub record MemoryScoreStorage (F : Type 0) : Type 0 where
  pub scores : List (ProviderScore F)
  pub next_score_id : ℕ

unfoldable pub new_memory_score_storage : {F : Type 0} → MemoryScoreStorage F
new_memory_score_storage = record { scores = []; next_score_id = 0 }

-- Go's `<` of strings.
unfoldable pub text_below : Text → Text → Bool
text_below s [] = false
text_below [] (d ∷ t) = true
text_below (c ∷ s) (d ∷ t) = if c == d then text_below s t else ltb c d

module _ {F : Type 0} where
  -- m.scores[provider], and its assignment.
  unfoldable pub find_score : Text → List (ProviderScore F) → Option (ProviderScore F)
  find_score provider [] = none
  find_score provider (s ∷ ss) =
      let rest = find_score provider ss in if text_eq s.provider provider then some s else rest

  unfoldable pub put_score : ProviderScore F → List (ProviderScore F) → List (ProviderScore F)
  put_score new [] = new ∷ []
  put_score new (s ∷ ss) =
      let rest = put_score new ss in if text_eq s.provider new.provider then new ∷ ss else s ∷ rest

  unfoldable pub get_provider_score : MemoryScoreStorage F → Text → Option (ProviderScore F)
  get_provider_score m provider = find_score provider m.scores

  -- The id to store under, and the counter after it.
  abbrev pub score_id : Option (ProviderScore F) → ℕ → ℕ × ℕ
  score_id none next = (suc next, suc next)
  score_id (some existing) next = (existing.id, next)

  unfoldable pub set_provider_score : MemoryScoreStorage F → Text → F → F → ℤ → MemoryScoreStorage F
  set_provider_score m provider score penalty now =
      let (id, next) = score_id (find_score provider m.scores) m.next_score_id in
      record {
        scores =
            put_score
              (record {
                id = id;
                provider = provider;
                score = score;
                penalty = penalty;
                updated_at = now;
              })
              m.scores;
        next_score_id = next;
      }

  -- `sort` is sort.Slice.
  unfoldable pub get_all_provider_scores :
      ((ProviderScore F → ProviderScore F → Bool) → List (ProviderScore F) → List (ProviderScore F))
      → MemoryScoreStorage F
      → List (ProviderScore F)
  get_all_provider_scores sort m = sort (λ a b. text_below a.provider b.provider) m.scores

pub record Memory (F : Type 0) : Type 0 where
  pub chain : MemoryChainStorage
  pub score : MemoryScoreStorage F
  pub quota : MemoryQuotaStorage

unfoldable pub new_memory : {F : Type 0} → Memory F
new_memory = record {
  chain = new_memory_chain_storage;
  score = new_memory_score_storage;
  quota = new_memory_quota_storage;
}
