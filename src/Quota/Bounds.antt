-- ===== src/Quota/Bounds.antt =====
-- The request counter of QuotaManager (provider.go) never exceeds a positive limit, over any windows.
use go_block_walk.Prelude.{arith}
use go_block_walk.Prelude.Int.{ℤ, pos, ◌≤ℤ◌, +ℤ_parts}
use go_block_walk.Quota.{
  QuotaConfig, QuotaManager, new_quota_manager, rollover_locked, remaining, consume,
}

-- A limit of 0 or less means no limit.
pub record IsWithin (qm : QuotaManager) : Type 0 where
  pub bounded : pos 1 ≤ℤ qm.limit → qm.used ≤ℤ qm.limit

-- From one state of a quota to another by any calls of `Consume` and `Remaining`.
pub data Spends (qm : QuotaManager) : QuotaManager → Type 0 where
  stays : Spends qm qm
  consumes : {qm' : QuotaManager} (now : ℤ) → Spends qm qm' → Spends qm (consume qm' now).1
  looks : {qm' : QuotaManager} (now : ℤ) → Spends qm qm' → Spends qm (remaining qm' now).1

rollover_locked-IsWithin :
    (qm : QuotaManager) (now : ℤ) → IsWithin qm → IsWithin (rollover_locked qm now)
unfolding rollover_locked
rollover_locked-IsWithin qm now h = record { bounded = λ p. ground (arith, h.bounded) }

pub consume-IsWithin : (qm : QuotaManager) (now : ℤ) → IsWithin qm → IsWithin (consume qm now).1
unfolding consume
consume-IsWithin qm now h =
    let r = rollover_locked-IsWithin qm now h in
    record {
      bounded = λ p. ground (arith, r.bounded, +ℤ_parts (rollover_locked qm now).used (pos 1));
    }

pub remaining-IsWithin : (qm : QuotaManager) (now : ℤ) → IsWithin qm → IsWithin (remaining qm now).1
unfolding remaining
remaining-IsWithin qm now h =
    let r = rollover_locked-IsWithin qm now h in record { bounded = λ p. ground (arith, r.bounded) }

pub Spends-IsWithin : {qm qm' : QuotaManager} → Spends qm qm' → IsWithin qm → IsWithin qm'
Spends-IsWithin stays h = h
Spends-IsWithin (consumes {qm'} now s) h = consume-IsWithin qm' now (Spends-IsWithin s h)
Spends-IsWithin (looks {qm'} now s) h = remaining-IsWithin qm' now (Spends-IsWithin s h)

pub new_quota_manager-IsWithin :
    (cfg : QuotaConfig) (now : ℤ) → IsWithin (new_quota_manager cfg now)
unfolding new_quota_manager
new_quota_manager-IsWithin cfg now = record { bounded = λ p. ground arith }
