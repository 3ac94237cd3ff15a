-- ===== src/Quota.antt =====
-- QuotaManager of provider.go, with QuotaConfig and CreditsConfig of config.go. Counters, instants
-- and durations are integers that do not overflow; an instant counts from the zero `time.Time`, and
-- the clock's reading is an argument.
pub mod Window
pub mod Bounds
pub mod Restore
mod Tests
use go_block_walk.Prelude.{
  ℕ, ◌+◌, Bool, true, false, ◌&&◌, Option, none, some, List, [], ◌∷◌, if◌then◌else◌,
}
use go_block_walk.Prelude.Int.{ℤ, pos, ◌+ℤ◌, ◌-ℤ◌, ltb_ℤ, leb_ℤ, eqb_ℤ}

pub record CreditsConfig : Type 0 where
  pub enabled : Bool
  pub per_request : ℤ
  pub limit : ℤ
  pub period : ℤ

pub record QuotaConfig : Type 0 where
  pub limit : ℤ
  pub period : ℤ
  pub credits : Option CreditsConfig

pub record QuotaManager : Type 0 where
  pub limit : ℤ
  pub period : ℤ
  pub used : ℤ
  pub reset_time : ℤ
  pub credits : Option CreditsConfig
  pub credit_used : ℤ
  pub credit_limit : ℤ
  pub credit_reset : ℤ

enable_credits : QuotaManager → Option CreditsConfig → ℤ → QuotaManager
enable_credits qm none now = qm
enable_credits qm (some c) now =
    if c.enabled
    then record qm { credits = some c; credit_limit = c.limit; credit_reset = now +ℤ c.period }
    else qm

unfoldable pub new_quota_manager : QuotaConfig → ℤ → QuotaManager
unfolding enable_credits
new_quota_manager cfg now = enable_credits qm cfg.credits now
  where
    qm : QuotaManager
    qm = record {
      limit = cfg.limit;
      period = cfg.period;
      used = pos 0;
      reset_time = now +ℤ cfg.period;
      credits = none;
      credit_used = pos 0;
      credit_limit = pos 0;
      credit_reset = pos 0;
    }

-- t.After(u)
abbrev pub after : ℤ → ℤ → Bool
after t u = ltb_ℤ u t

roll_requests : QuotaManager → ℤ → QuotaManager
roll_requests qm now =
    if ltb_ℤ (pos 0) qm.period && after now qm.reset_time
    then record qm { used = pos 0; reset_time = now +ℤ qm.period }
    else qm

roll_credits : QuotaManager → Option CreditsConfig → ℤ → QuotaManager
roll_credits qm none now = qm
roll_credits qm (some c) now =
    if after now qm.credit_reset
    then record qm { credit_used = pos 0; credit_reset = now +ℤ c.period }
    else qm

unfoldable pub rollover_locked : QuotaManager → ℤ → QuotaManager
unfolding roll_requests roll_credits
rollover_locked qm now = roll_credits (roll_requests qm now) qm.credits now

-- limit > 0 && used >= limit
abbrev spent : QuotaManager → Bool
spent qm = ltb_ℤ (pos 0) qm.limit && leb_ℤ qm.limit qm.used

over_credits : QuotaManager → Option CreditsConfig → Bool
over_credits qm none = false
over_credits qm (some c) = ltb_ℤ qm.credit_limit (qm.credit_used +ℤ c.per_request)

-- A method that rolls the window over returns the new manager too.
unfoldable pub remaining : QuotaManager → ℤ → Bool × QuotaManager
unfolding over_credits
remaining qm now =
    let rolled = rollover_locked qm now in
    if spent rolled
    then (false, rolled)
    else if over_credits rolled rolled.credits
    then (false, rolled)
    else (true, rolled)

charge : QuotaManager → Option CreditsConfig → Bool × QuotaManager
charge qm none = (true, record qm { used = qm.used +ℤ pos 1 })
charge qm (some c) =
    if ltb_ℤ qm.credit_limit (qm.credit_used +ℤ c.per_request) then (false, qm) else (
      true,
      record qm { credit_used = qm.credit_used +ℤ c.per_request; used = qm.used +ℤ pos 1 },
    )

unfoldable pub consume : QuotaManager → ℤ → Bool × QuotaManager
unfolding charge
consume qm now =
    let rolled = rollover_locked qm now in
    if spent rolled then (false, rolled) else charge rolled rolled.credits

unfoldable pub usage : QuotaManager → ℤ × ℤ × ℤ × ℤ
usage qm = (qm.limit, qm.used, qm.credit_limit, qm.credit_used)

unfoldable pub remaining_units : QuotaManager → ℤ × ℤ × ℤ × ℤ
remaining_units qm =
    (qm.limit -ℤ qm.used, qm.used, qm.credit_limit -ℤ qm.credit_used, qm.credit_used)

unfoldable pub reset_times : QuotaManager → ℤ × ℤ
reset_times qm = (qm.reset_time, qm.credit_reset)

-- resetAt.IsZero() is `eqb_ℤ reset_at (pos 0)`
unfoldable pub restore_usage : QuotaManager → ℤ → ℤ → QuotaManager
restore_usage qm used reset_at =
    let qm' = record qm { used = used } in
    if eqb_ℤ reset_at (pos 0) then qm' else record qm' { reset_time = reset_at }

abbrev pub tally : Bool → ℕ
tally true = 1
tally false = 0

-- Calls of `Consume` at the given instants, and how many were granted.
unfoldable pub consume_all : QuotaManager → List ℤ → ℕ × QuotaManager
consume_all qm [] = (0, qm)
consume_all qm (now ∷ later) =
    let (granted, qm') = consume qm now in
    let (n, last) = consume_all qm' later in (tally granted + n, last)
