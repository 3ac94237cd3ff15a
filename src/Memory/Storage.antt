-- ===== src/Memory/Storage.antt =====
-- memory.go: Memory is a Storage (ports.go). Its methods are those of its three parts; `now` is the
-- clock's reading, and `sort` is sort.Slice.
use go_block_walk.Prelude.{
  ◌≡◌, ◌≢◌, refl, Bool, Bool-cases, inl, inr, Option, none, some, List, Text, false,
}
use go_block_walk.Prelude.Int.{ℤ}
use go_block_walk.Prelude.Strings.{text_eq, text_eq_refl, eq_of_text_eq}
use go_block_walk.Errors.{GoError, Result, ok, err}
use go_block_walk.Ports.Storage.{ChainStorage, ScoreStorage, QuotaStorage, Storage, KeepsPositions}
use go_block_walk.Memory.{
  MemoryChainStorage, new_memory_chain_storage, get_last_block, set_last_block, save_indexed_event,
  get_indexed_events, is_event_indexed,
}
use go_block_walk.Memory.Quotas.{MemoryQuotaStorage, get_quota_usage, set_quota_usage}
use go_block_walk.Memory.Scores.{
  ProviderScore, MemoryScoreStorage, Memory, new_memory, get_provider_score, set_provider_score,
  get_all_provider_scores,
}

-- An `error` that may be nil as a result.
abbrev result_of : Option GoError → Result (Unit {0})
result_of none = ok tt
result_of (some e) = err e

unfoldable pub memory_chain_storage : ℤ → ChainStorage MemoryChainStorage
memory_chain_storage now = record {
  get_last_block = λ chain m. ok (get_last_block m chain);
  set_last_block = λ chain n m. (ok tt, set_last_block m chain n);
  save_indexed_event =
      λ e m. let (failure, m') = save_indexed_event m e now in (result_of failure, m');
  get_indexed_events = λ chain from to m. ok (get_indexed_events m chain from to);
  is_event_indexed = λ chain block index m. ok (is_event_indexed m chain block index);
  close = λ m. (ok tt, m);
}

pub memory_quota_storage : ℤ → QuotaStorage MemoryQuotaStorage
memory_quota_storage now = record {
  get_quota_usage = λ key m. ok (get_quota_usage m key);
  set_quota_usage = λ key used reset_at m. (ok tt, set_quota_usage m key used reset_at now);
}

-- A method of an embedded part.
abbrev within : {A S M : Type 0} → (M → S) → (S → M → M) → (S → A × S) → M → A × M
within part put method m = let (a, s) = method (part m) in (a, put s m)

module _ {F : Type 0}
    (sort : (ProviderScore F → ProviderScore F → Bool)
      → List (ProviderScore F)
      → List (ProviderScore F)) where
  pub memory_score_storage : ℤ → ScoreStorage F (MemoryScoreStorage F)
  memory_score_storage now = record {
    get_provider_score = λ name m. ok (get_provider_score m name);
    set_provider_score =
        λ name score penalty m. (ok tt, set_provider_score m name score penalty now);
    get_all_provider_scores = λ m. ok (get_all_provider_scores sort m);
  }

  abbrev in_chain :
      {A : Type 0} → (MemoryChainStorage → A × MemoryChainStorage) → Memory F → A × Memory F
  in_chain = within (λ m. m.chain) (λ s m. record m { chain = s })

  abbrev in_score :
      {A : Type 0} → (MemoryScoreStorage F → A × MemoryScoreStorage F) → Memory F → A × Memory F
  in_score = within (λ m. m.score) (λ s m. record m { score = s })

  abbrev in_quota :
      {A : Type 0} → (MemoryQuotaStorage → A × MemoryQuotaStorage) → Memory F → A × Memory F
  in_quota = within (λ m. m.quota) (λ s m. record m { quota = s })

  unfoldable pub memory : ℤ → Storage F (Memory F)
  unfolding memory_chain_storage memory_score_storage memory_quota_storage
  memory now =
      let chains = memory_chain_storage now in
      let scores = memory_score_storage now in
      let quotas = memory_quota_storage now in
      record {
        chain_storage = record {
          get_last_block = λ chain m. chains.get_last_block chain m.chain;
          set_last_block = λ chain n. in_chain (chains.set_last_block chain n);
          save_indexed_event = λ e. in_chain (chains.save_indexed_event e);
          get_indexed_events = λ chain from to m. chains.get_indexed_events chain from to m.chain;
          is_event_indexed =
              λ chain block index m. chains.is_event_indexed chain block index m.chain;
          close = in_chain chains.close;
        };
        score_storage = record {
          get_provider_score = λ name m. scores.get_provider_score name m.score;
          set_provider_score =
              λ name score penalty. in_score (scores.set_provider_score name score penalty);
          get_all_provider_scores = λ m. scores.get_all_provider_scores m.score;
        };
        quota_storage = record {
          get_quota_usage = λ key m. quotas.get_quota_usage key m.quota;
          set_quota_usage =
              λ key used reset_at. in_quota (quotas.set_quota_usage key used reset_at);
        };
      }

  not_text_eq : (s t : Text) → s ≢ t → text_eq s t ≡ false
  not_text_eq s t d = elim (Bool-cases (text_eq s t)) [
    | inl e ↦ absurd (d (eq_of_text_eq s t e))
    | inr e ↦ e
  ]

  -- Memory keeps the positions of its chains: it takes every position, a read of a chain gives what was
  -- stored for it last, or 0, and a store for one chain does not change what another one reads.
  pub memory-KeepsPositions : (now : ℤ) → KeepsPositions (memory now).chain_storage new_memory
  unfolding memory memory_chain_storage new_memory new_memory_chain_storage get_last_block
      set_last_block
  memory-KeepsPositions now = record {
    fresh = λ chain. refl;
    takes = λ chain n m. refl;
    gives_back = λ chain n m. rw (text_eq_refl chain) refl;
    apart = λ chain other n m d. rw (not_text_eq other chain d) refl;
  }
