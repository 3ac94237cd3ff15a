-- ===== src/Prelude/Float.antt =====
-- What the program does with a float64. No law is assumed here: a theorem names those it relies on.
use go_block_walk.Prelude.{ℕ, Bool}
use go_block_walk.Prelude.Int.{ℤ}

-- `pow_2 n` is math.Pow(2, n), `to_duration` is time.Duration(f), `above` is `>`, and `half`, `tenth`
-- and `fifth` are the constants 0.5, 0.1 and 0.2.
pub record Float64 (F : Type 0) : Type 0 where
  pub from_int : ℤ → F
  pub pow_2 : ℕ → F
  pub times : F → F → F
  pub plus : F → F → F
  pub minus : F → F → F
  pub above : F → F → Bool
  pub half : F
  pub tenth : F
  pub fifth : F
  pub to_duration : F → ℤ
