-- ===== src/Setup.antt =====
-- indexer.go: NewIndexer with its checks and defaults, and restoreProviderState. A capability that
-- the storage may lack is an `Option`; the providers are those of Pool, and an entry may be nil.
pub mod Restart
mod Tests
use go_block_walk.Prelude.{
  ◌≡◌, ◌↔◌, refl, sym, subst, arith, Bool, true, false, not, Option, none, some, List, [], ◌∷◌, map,
  Text, codes, if◌then◌else◌,
}
use go_block_walk.Prelude.Int.{ℤ, pos, leb_ℤ, ◌≤ℤ◌}
use go_block_walk.Prelude.Float.{Float64}
use go_block_walk.Prelude.Strings.{text_eq}
use go_block_walk.Errors.{GoError, plain, Result, ok, err}
use go_block_walk.Indexer.{IndexerConfig}
use go_block_walk.Exhaustion.{ExhaustionTracker, new_exhaustion_tracker}
use go_block_walk.Memory.Quotas.{QuotaUsage}
use go_block_walk.Memory.Scores.{ProviderScore}
use go_block_walk.Provider.{Provider, set_score, restore_quota_usage}

-- Which of its interfaces NewIndexer was given.
pub record Given : Type 0 where
  pub pool : Bool
  pub storage : Bool
  pub dispatcher : Bool

unfoldable pub check_config : Given → IndexerConfig → Option GoError
check_config given cfg =
    if not given.pool
    then some (plain (codes "idx: pool is required"))
    else if not given.storage
    then some (plain (codes "idx: storage is required"))
    else if not given.dispatcher
    then some (plain (codes "idx: dispatcher is required"))
    else if text_eq cfg.chain []
    then some (plain (codes "idx: chain is required"))
    else if leb_ℤ cfg.block_interval (pos 0)
    then some (plain (codes "idx: BlockInterval must be positive"))
    else none

abbrev or_if_not_positive : ℤ → ℤ → ℤ
or_if_not_positive n default = if leb_ℤ n (pos 0) then default else n

unfoldable pub with_defaults : IndexerConfig → IndexerConfig
with_defaults cfg = record cfg {
  max_consecutive_provider_exhaustion =
      or_if_not_positive cfg.max_consecutive_provider_exhaustion (pos 5);
  provider_exhaustion_restart_delay =
      or_if_not_positive cfg.provider_exhaustion_restart_delay (pos 15000000000);
}

-- What the indexer starts with, of what depends on the configuration.
abbrev unless_refused : Option GoError → IndexerConfig → Result (IndexerConfig × ExhaustionTracker)
unless_refused none cfg = ok (cfg, new_exhaustion_tracker cfg.max_consecutive_provider_exhaustion)
unless_refused (some e) cfg = err e

unfoldable pub new_indexer : Given → IndexerConfig → Result (IndexerConfig × ExhaustionTracker)
new_indexer given cfg = unless_refused (check_config given cfg) (with_defaults cfg)

module _ {F : Type 0} (float : Float64 F) where
  -- A storage's GetProviderScore, and its GetQuotaUsage for "requests", as functions of the
  -- provider's name.
  abbrev pub ReadScore : Type 0
  ReadScore = Text → Result (Option (ProviderScore F))

  abbrev pub ReadQuota : Type 0
  ReadQuota = Text → Result (Option QuotaUsage)

  abbrev apply_score : Result (Option (ProviderScore F)) → Provider F → Provider F
  apply_score (err e) p = p
  apply_score (ok none) p = p
  apply_score (ok (some s)) p = set_score float s.score p

  abbrev apply_quota : Result (Option QuotaUsage) → Provider F → Provider F
  apply_quota (err e) p = p
  apply_quota (ok none) p = p
  apply_quota (ok (some u)) p = restore_quota_usage float u.used u.reset_at p

  abbrev restore_score : Option ReadScore → Provider F → Provider F
  restore_score none p = p
  restore_score (some read) p = apply_score (read p.name) p

  abbrev restore_quota : Option ReadQuota → Provider F → Provider F
  restore_quota none p = p
  restore_quota (some read) p = apply_quota (read p.name) p

  unfoldable pub restore_one : Option ReadScore → Option ReadQuota → Provider F → Provider F
  restore_one scores quotas p = restore_quota quotas (restore_score scores p)

  abbrev restore_entry :
      Option ReadScore → Option ReadQuota → Option (Provider F) → Option (Provider F)
  restore_entry scores quotas none = none
  restore_entry scores quotas (some p) = some (restore_one scores quotas p)

  unfoldable pub restore_provider_state :
      Option ReadScore → Option ReadQuota → List (Option (Provider F)) → List (Option (Provider F))
  restore_provider_state scores quotas ps = map (restore_entry scores quotas) ps

check_config-none :
    (given : Given) (cfg : IndexerConfig)
    → (check_config given cfg ≡ none)
      ↔ (given.pool ≡ true)
        × (given.storage ≡ true)
        × (given.dispatcher ≡ true)
        × (text_eq cfg.chain [] ≡ false)
        × (pos 1 ≤ℤ cfg.block_interval)
unfolding check_config
check_config-none given cfg = (λ e. ground arith, λ h. ground arith)

unless_refused-ok :
    (o : Option GoError) (cfg : IndexerConfig) (r : IndexerConfig × ExhaustionTracker)
    → unless_refused o cfg ≡ ok r
    → (o ≡ none) × (r ≡ (cfg, new_exhaustion_tracker cfg.max_consecutive_provider_exhaustion))
unless_refused-ok none cfg r e = (refl, cc)
unless_refused-ok (some x) cfg r e = absurd (cc)

Positive : IndexerConfig → IndexerConfig × ExhaustionTracker → Type 0
Positive cfg (kept, tracker) =
    (pos 1 ≤ℤ kept.max_consecutive_provider_exhaustion)
    × (pos 1 ≤ℤ kept.provider_exhaustion_restart_delay)
    × (tracker.threshold ≡ kept.max_consecutive_provider_exhaustion)
    × (kept.start_block ≡ cfg.start_block)
    × (kept.reorg_depth ≡ cfg.reorg_depth)

with_defaults-Positive :
    (cfg : IndexerConfig)
    → let kept = with_defaults cfg in
      Positive cfg (kept, new_exhaustion_tracker kept.max_consecutive_provider_exhaustion)
unfolding with_defaults new_exhaustion_tracker Positive
with_defaults-Positive cfg = ground arith

-- NewIndexer accepts what it is given exactly if it has a pool, a storage, a dispatcher, the name
-- of a chain and a positive BlockInterval; the configuration that it then keeps has a positive
-- restart delay and exhaustion limit, which is the tracker's, and StartBlock and ReorgDepth as
-- given.
pub new_indexer-ok_iff :
    (given : Given) (cfg : IndexerConfig)
    → (((r : IndexerConfig × ExhaustionTracker) × (new_indexer given cfg ≡ ok r))
        ↔ (given.pool ≡ true)
          × (given.storage ≡ true)
          × (given.dispatcher ≡ true)
          × (text_eq cfg.chain [] ≡ false)
          × (pos 1 ≤ℤ cfg.block_interval))
      × ((kept : IndexerConfig) (tracker : ExhaustionTracker)
          → new_indexer given cfg ≡ ok (kept, tracker)
          → (pos 1 ≤ℤ kept.max_consecutive_provider_exhaustion)
            × (pos 1 ≤ℤ kept.provider_exhaustion_restart_delay)
            × (tracker.threshold ≡ kept.max_consecutive_provider_exhaustion)
            × (kept.start_block ≡ cfg.start_block)
            × (kept.reorg_depth ≡ cfg.reorg_depth))
unfolding new_indexer Positive
new_indexer-ok_iff given cfg =
    let (accepted, accepts) = check_config-none given cfg in
    (
      (
        λ h. accepted (unless_refused-ok (check_config given cfg) (with_defaults cfg) h.0 h.1).0,
        λ h. (
          (
            with_defaults cfg,
            new_exhaustion_tracker (with_defaults cfg).max_consecutive_provider_exhaustion,
          ),
          rw (accepts h) refl,
        ),
      ),
      λ kept tracker e.
          subst (Positive cfg)
            (sym
              (unless_refused-ok (check_config given cfg) (with_defaults cfg) (kept, tracker) e).1)
            (with_defaults-Positive cfg),
    )
