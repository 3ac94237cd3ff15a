-- ===== src/Ports/Storage.antt =====
-- ports.go: ChainStorage, ScoreStorage, QuotaStorage and Storage, over the state `S` of whatever keeps
-- what is stored, and what a ChainStorage is relied on for.
use go_block_walk.Prelude.{ℕ, ◌≡◌, ◌≢◌, Bool, Option, List, Text}
use go_block_walk.Prelude.Int.{ℤ}
use go_block_walk.Errors.{Result, ok}
use go_block_walk.Memory.{IndexedEvent}
use go_block_walk.Memory.Quotas.{QuotaUsage, QuotaKey}
use go_block_walk.Memory.Scores.{ProviderScore}

pub record ChainStorage (S : Type 0) : Type 0 where
  pub get_last_block : Text → S → Result ℕ
  pub set_last_block : Text → ℕ → S → Result (Unit {0}) × S
  pub save_indexed_event : Option IndexedEvent → S → Result (Unit {0}) × S
  pub get_indexed_events : Text → ℕ → ℕ → S → Result (List IndexedEvent)
  pub is_event_indexed : Text → ℕ → ℕ → S → Result Bool
  pub close : S → Result (Unit {0}) × S

pub record ScoreStorage (F S : Type 0) : Type 0 where
  pub get_provider_score : Text → S → Result (Option (ProviderScore F))
  pub set_provider_score : Text → F → F → S → Result (Unit {0}) × S
  pub get_all_provider_scores : S → Result (List (ProviderScore F))

pub record QuotaStorage (S : Type 0) : Type 0 where
  pub get_quota_usage : QuotaKey → S → Result (Option QuotaUsage)
  pub set_quota_usage : QuotaKey → ℤ → ℤ → S → Result (Unit {0}) × S

pub record Storage (F S : Type 0) : Type 0 where
  pub chain_storage : ChainStorage S
  pub score_storage : ScoreStorage F S
  pub quota_storage : QuotaStorage S

-- A storage that takes every position, and gives back for a chain what was stored last for it; `first`
-- is its state at first, with nothing stored.
pub record KeepsPositions {S : Type 0} (storage : ChainStorage S) (first : S) : Type 0 where
  pub fresh : (chain : Text) → storage.get_last_block chain first ≡ ok 0
  pub takes : (chain : Text) (n : ℕ) (s : S) → (storage.set_last_block chain n s).0 ≡ ok tt
  pub gives_back :
      (chain : Text) (n : ℕ) (s : S)
      → storage.get_last_block chain (storage.set_last_block chain n s).1 ≡ ok n
  pub apart :
      (chain other : Text) (n : ℕ) (s : S)
      → other ≢ chain
      → storage.get_last_block other (storage.set_last_block chain n s).1
        ≡ storage.get_last_block other s
