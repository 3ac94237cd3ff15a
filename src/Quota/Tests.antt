-- ===== src/Quota/Tests.antt =====
-- The quota manager on concrete configurations.
use go_block_walk.Prelude.{ap, ◌≡◌, refl, true, none, some, [], ◌∷◌, arith}
use go_block_walk.Prelude.Int.{pos, pos_part, ◌+ℤ◌}
use go_block_walk.Quota.{
  QuotaConfig, QuotaManager, new_quota_manager, remaining, consume, consume_all, usage, reset_times,
  restore_usage, enable_credits, rollover_locked,
}
use go_block_walk.Quota.Window.{consume-remaining}
use go_block_walk.Quota.Restore.{restore-persist}

-- Two requests each 10 instants, no credits.
abbrev two_per_ten : QuotaManager
two_per_ten = record {
  limit = pos 2;
  period = pos 10;
  used = pos 0;
  reset_time = pos 15;
  credits = none;
  credit_used = pos 0;
  credit_limit = pos 0;
  credit_reset = pos 0;
}

-- Ten requests and 30 credits each 10 instants, 20 credits a request.
abbrev with_credits : QuotaManager
with_credits = record {
  limit = pos 10;
  period = pos 10;
  used = pos 1;
  reset_time = pos 15;
  credits = some (record { enabled = true; per_request = pos 20; limit = pos 30; period = pos 10 });
  credit_used = pos 20;
  credit_limit = pos 30;
  credit_reset = pos 15;
}

abbrev plain_config : QuotaConfig
plain_config = record { limit = pos 2; period = pos 10; credits = none }

consume-remaining_example : (consume with_credits (pos 6)).0 ≡ (remaining with_credits (pos 6)).0
consume-remaining_example = consume-remaining with_credits (pos 6)

abbrev used_up : QuotaManager
used_up = record two_per_ten { used = pos 2 }

restore-persist_example :
    let qm = (consume_all (new_quota_manager plain_config (pos 5)) (pos 6 ∷ [])).1 in
    restore_usage (new_quota_manager plain_config (pos 9)) (usage qm).1 (reset_times qm).0 ≡ qm
unfolding consume_all consume rollover_locked new_quota_manager enable_credits ◌+ℤ◌
restore-persist_example =
    restore-persist plain_config (pos 5) (pos 9) (pos 6 ∷ []) refl
      (λ e. omega (arith, ap pos_part e))
