-- ===== src/Exhaustion.antt =====
-- exhaustion.go: ExhaustionTracker. An `int` is an integer that does not overflow.
mod Tests
use go_block_walk.Prelude.{
  ℕ, zero, suc, ◌≤◌, ◌≡◌, ◌↔◌, Bool, true, false, List, [], ◌∷◌, arith, if◌then◌else◌,
}
use go_block_walk.Prelude.Int.{ℤ, pos, ltb_ℤ, leb_ℤ, ◌+ℤ◌, +ℤ_parts, eq_of_parts}

pub record ExhaustionTracker : Type 0 where
  pub threshold : ℤ
  pub consecutive : ℤ

unfoldable pub new_exhaustion_tracker : ℤ → ExhaustionTracker
new_exhaustion_tracker threshold =
    let threshold' = (if ltb_ℤ threshold (pos 1) then pos 1 else threshold) in
    record { threshold = threshold'; consecutive = pos 0 }

-- The method returns its answer and the tracker that it leaves.
unfoldable pub observe : ExhaustionTracker → Bool → Bool × ExhaustionTracker
observe t provider_available =
    if provider_available
    then (false, record t { consecutive = pos 0 })
    else let n = t.consecutive +ℤ pos 1 in (leb_ℤ t.threshold n, record t { consecutive = n })

unfoldable pub consecutive : ExhaustionTracker → ℤ
consecutive t = t.consecutive

-- A new tracker after the given observations, the newest first.
abbrev observed : ℤ → List Bool → ExhaustionTracker
observed threshold [] = new_exhaustion_tracker threshold
observed threshold (b ∷ earlier) = (observe (observed threshold earlier) b).1

-- The newest `n` observations all found no provider.
abbrev LastDown : ℕ → List Bool → Type 0
LastDown zero history = Unit
LastDown (suc n) [] = ⊥
LastDown (suc n) (b ∷ history) = (b ≡ false) × LastDown n history

streak : List Bool → ℕ
streak [] = 0
streak (true ∷ earlier) = 0
streak (false ∷ earlier) = suc (streak earlier)

LastDown-iff : (n : ℕ) (history : List Bool) → LastDown n history ↔ (n ≤ streak history)
unfolding streak
LastDown-iff zero history = (λ _. omega arith, λ _. tt)
LastDown-iff (suc n) [] = (λ h. elim h [ ], λ h. absurd (omega arith))
LastDown-iff (suc n) (true ∷ earlier) = ground arith
LastDown-iff (suc n) (false ∷ earlier) = ground (arith, LastDown-iff n earlier)

observed_lem :
    (k : ℕ) (history : List Bool)
    → observed (pos (suc k)) history
      ≡ record { threshold = pos (suc k); consecutive = pos (streak history) }
unfolding observe new_exhaustion_tracker streak
observed_lem k [] = ground arith
observed_lem k (true ∷ earlier) = ground (arith, observed_lem k earlier)
observed_lem k (false ∷ earlier) = ground (
  arith,
  observed_lem k earlier,
  +ℤ_parts (pos (streak earlier)) (pos 1),
  eq_of_parts (pos (streak earlier) +ℤ pos 1) (pos (suc (streak earlier))),
)

-- With a threshold of at least 1, an observation is reported as exhaustion exactly when it and the
-- ones before it make that many observations in a row, at least, that found no provider.
pub observe_iff :
    (k : ℕ) (history : List Bool) (available : Bool)
    → ((observe (observed (pos (suc k)) history) available).0 ≡ true)
      ↔ LastDown (suc k) (available ∷ history)
unfolding observe
observe_iff k history true = ground arith
observe_iff k history false =
    rw observed_lem
      (ground (arith, LastDown-iff k history, +ℤ_parts (pos (streak history)) (pos 1)))
