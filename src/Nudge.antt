-- ===== src/Nudge.antt =====
-- nudge.go: NudgeSignal, a channel of capacity 1 that carries no value. The state is the number of
-- values in its buffer. `Fire` and a receive are each one atomic step of the channel.
mod Tests
use go_block_walk.Prelude.{
  ℕ, zero, suc, ◌+◌, ◌≡◌, Bool, true, false, List, [], ◌∷◌, arith, if◌then◌else◌, ltb, refl,
}

abbrev capacity : ℕ
capacity = 1

pub record NudgeSignal : Type 0 where
  pub buffered : ℕ

unfoldable pub new_nudge_signal : NudgeSignal
new_nudge_signal = record { buffered = 0 }

-- select { case s.ch <- struct{}{}: default: }
unfoldable pub fire : NudgeSignal → NudgeSignal
fire s = if ltb s.buffered capacity then record s { buffered = s.buffered + 1 } else s

-- A receive from `C()` that does not wait: whether it got a value, and the channel after it.
unfoldable pub receive : NudgeSignal → Bool × NudgeSignal
receive s = elim s.buffered [ zero ↦ (false, s) | suc n ↦ (true, record { buffered = n }) ]

pub data Use : Type 0 where
  fires receives : Use

pub after_uses : NudgeSignal → List Use → NudgeSignal
after_uses s [] = s
after_uses s (fires ∷ us) = after_uses (fire s) us
after_uses s (receives ∷ us) = after_uses (receive s).1 us

-- Whether a call of `Fire` stands after the last receive; `b` says so of what came before.
abbrev fired_since : Bool → List Use → Bool
fired_since b [] = b
fired_since b (fires ∷ us) = fired_since true us
fired_since b (receives ∷ us) = fired_since false us

abbrev count : Bool → ℕ
count true = 1
count false = 0

after_uses_lem :
    (b : Bool) (us : List Use)
    → after_uses (record { buffered = count b }) us ≡ record { buffered = count (fired_since b us) }
unfolding after_uses fire receive
after_uses_lem b [] = refl
after_uses_lem true (fires ∷ us) = after_uses_lem true us
after_uses_lem false (fires ∷ us) = after_uses_lem true us
after_uses_lem true (receives ∷ us) = after_uses_lem false us
after_uses_lem false (receives ∷ us) = after_uses_lem false us

-- After any sequence of fires and receives, the next receive gets a wakeup exactly when there was a
-- fire since the last receive, and the one after it gets none: pending fires collapse into one.
pub receive_coalesces :
    (us : List Use)
    → ((receive (after_uses new_nudge_signal us)).0 ≡ fired_since false us)
      × ((receive (receive (after_uses new_nudge_signal us)).1).0 ≡ false)
unfolding new_nudge_signal receive
receive_coalesces us = rw (after_uses_lem false us) (ground arith)
