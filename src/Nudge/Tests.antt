-- ===== src/Nudge/Tests.antt =====
-- The nudge signal on a concrete sequence of uses.
use go_block_walk.Prelude.{◌≡◌, true, false, [], ◌∷◌}
use go_block_walk.Nudge.{new_nudge_signal, receive, fires, receives, after_uses, receive_coalesces}

receive_coalesces_example :
    ((receive (after_uses new_nudge_signal (fires ∷ receives ∷ fires ∷ fires ∷ []))).0 ≡ true)
    × ((receive (receive (after_uses new_nudge_signal (fires ∷ receives ∷ fires ∷ fires ∷ []))).1).0
        ≡ false)
receive_coalesces_example = receive_coalesces (fires ∷ receives ∷ fires ∷ fires ∷ [])
