-- ===== src/Provider/Scores.antt =====
-- The score and the availability of a provider (provider.go).
use go_block_walk.Prelude.{◌≡◌, true, false, none, arith, ◌↔◌}
use go_block_walk.Prelude.Int.{ℤ, negsuc}
use go_block_walk.Prelude.Float.{Float64}
use go_block_walk.Breaker.{State}
use go_block_walk.Quota.{consume}
use go_block_walk.Quota.Window.{consume-remaining}
use go_block_walk.Provider.{Provider, is_available, record_success, record_failure, score_ceiling}
use go_block_walk.Breaker

module _ {F : Type 0} (float : Float64 F) where
  -- For a provider that is connected, and a `>` by which no number is above itself: after
  -- RecordSuccess the score is not above its ceiling, and is the old one plus 0.1 unless that is
  -- above the ceiling; the provider is then available exactly if the breaker lets calls through and
  -- `Consume` would grant a request at that instant. After RecordFailure it is not available if the
  -- old score minus 0.2 is below -1.0, and otherwise as available as before.
  pub record-is_available :
      (state : State) (now : ℤ) (p : Provider F)
      → ((x : F) → float.above x x ≡ false)
      → p.dial_err ≡ none
      → p.connected ≡ true
      → let raised = float.plus p.current_score float.tenth in
        let lowered = float.minus p.current_score float.fifth in
        let after_success = record_success float now p in
        let after_failure = record_failure float p in
        (float.above after_success.current_score (score_ceiling float p) ≡ false)
        × ((float.above raised (score_ceiling float p) ≡ false)
            → after_success.current_score ≡ raised)
        × ((is_available float state now after_success).0 ≡ true
            ↔ (go_block_walk.Breaker.is_available p.circuit_breaker state ≡ true)
              × ((consume p.quota now).0 ≡ true))
        × (float.above (float.from_int (negsuc 0)) lowered ≡ true
            → (is_available float state now after_failure).0 ≡ false)
        × (float.above (float.from_int (negsuc 0)) lowered ≡ false
            → (is_available float state now after_failure).0 ≡ (is_available float state now p).0)
  unfolding record_success record_failure is_available
  record-is_available state now p irreflexive dialled connected =
      ground (arith, consume-remaining p.quota now, irreflexive (score_ceiling float p))
