-- ===== src/Quota/Restore.antt =====
-- Rollover to a new window, the credit budget, and restoring persisted usage (provider.go).
use go_block_walk.Prelude.{◌≡◌, ◌≢◌, true, false, none, List, [], ◌∷◌, arith}
use go_block_walk.Prelude.Int.{ℤ, pos, ◌+ℤ◌, ◌≤ℤ◌, eqb_ℤ, +ℤ_parts, eq_of_parts}
use go_block_walk.Quota.{
  QuotaConfig, QuotaManager, new_quota_manager, rollover_locked, remaining, consume, consume_all,
  usage, reset_times, restore_usage,
}

-- The first request after the window's end opens a new window that holds just that request, whatever
-- was spent before (period and limit positive, no credits).
pub consume_new_window :
    (qm : QuotaManager) (now : ℤ)
    → qm.credits ≡ none
    → pos 1 ≤ℤ qm.period
    → pos 1 ≤ℤ qm.limit
    → qm.reset_time +ℤ pos 1 ≤ℤ now
    → consume qm now ≡ (true, record qm { used = pos 1; reset_time = now +ℤ qm.period })
unfolding consume rollover_locked
consume_new_window qm now plain period limit late = ground (
  arith,
  +ℤ_parts qm.reset_time (pos 1),
  eq_of_parts (pos 0 +ℤ pos 1) (pos 1),
  +ℤ_parts (pos 0) (pos 1),
)

abbrev pub WithinCredits : QuotaManager → Type 0
WithinCredits qm = (pos 0 ≤ℤ qm.credit_limit) × (qm.credit_used ≤ℤ qm.credit_limit)

-- The credits charged never pass the credit limit: checking and consuming both keep them within it.
pub consume-WithinCredits :
    (qm : QuotaManager) (now : ℤ)
    → WithinCredits qm
    → WithinCredits (remaining qm now).1 × WithinCredits (consume qm now).1
unfolding consume remaining rollover_locked
consume-WithinCredits qm now within = ground arith

-- What no request changes, for a manager without credits.
record FromConfig (cfg : QuotaConfig) (qm : QuotaManager) : Type 0 where
  credits : qm.credits ≡ none
  limit : qm.limit ≡ cfg.limit
  period : qm.period ≡ cfg.period
  credit_used : qm.credit_used ≡ pos 0
  credit_limit : qm.credit_limit ≡ pos 0
  credit_reset : qm.credit_reset ≡ pos 0

FromConfig-new :
    (cfg : QuotaConfig) (start : ℤ)
    → cfg.credits ≡ none
    → FromConfig cfg (new_quota_manager cfg start)
unfolding new_quota_manager
FromConfig-new cfg start plain = ground arith

FromConfig-consume :
    (cfg : QuotaConfig) (qm : QuotaManager) (now : ℤ)
    → FromConfig cfg qm
    → FromConfig cfg (consume qm now).1
unfolding consume rollover_locked
FromConfig-consume cfg qm now f = ground arith

FromConfig-consume_all :
    (cfg : QuotaConfig) (qm : QuotaManager) (times : List ℤ)
    → FromConfig cfg qm
    → FromConfig cfg (consume_all qm times).1
unfolding consume_all
FromConfig-consume_all cfg qm [] f = f
FromConfig-consume_all cfg qm (now ∷ later) f =
    FromConfig-consume_all cfg (consume qm now).1 later (FromConfig-consume cfg qm now f)

set_time : (t : ℤ) → t ≢ pos 0 → eqb_ℤ t (pos 0) ≡ false
set_time t h = ground (arith, eq_of_parts t (pos 0))

restore_fields :
    (cfg : QuotaConfig) (fresh qm : QuotaManager)
    → FromConfig cfg fresh
    → FromConfig cfg qm
    → qm.reset_time ≢ pos 0
    → restore_usage fresh (usage qm).1 (reset_times qm).0 ≡ qm
unfolding restore_usage usage reset_times
restore_fields cfg fresh qm f g set = rw (set_time qm.reset_time set) (ground arith)

-- A manager without credits that has served any requests is given back by persisting what
-- `GetQuotaUsage` and `GetQuotaReset` report and restoring it on a new manager of the same
-- configuration, unless its window ends at the zero time.
pub restore-persist :
    (cfg : QuotaConfig) (start restart : ℤ) (times : List ℤ)
    → cfg.credits ≡ none
    → (consume_all (new_quota_manager cfg start) times).1.reset_time ≢ pos 0
    → let qm = (consume_all (new_quota_manager cfg start) times).1 in
      restore_usage (new_quota_manager cfg restart) (usage qm).1 (reset_times qm).0 ≡ qm
restore-persist cfg start restart times plain set =
    restore_fields cfg (new_quota_manager cfg restart) _ (FromConfig-new cfg restart plain)
      (FromConfig-consume_all cfg (new_quota_manager cfg start) times
        (FromConfig-new cfg start plain))
      set
