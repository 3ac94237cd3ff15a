-- ===== src/Hashes/Tests.antt =====
-- The hash window on concrete blocks.
use go_block_walk.Prelude.{◌≤◌, refl, length}
use go_block_walk.Prelude.Int.{pos}
use go_block_walk.Hashes.{HashWindow, empty_window, record_block_hash}
use go_block_walk.Hashes.Window.{IsConsistent, record_block_hash-IsConsistent}

empty_window-IsConsistent : IsConsistent empty_window
empty_window-IsConsistent = record {
  distinct = tt;
  tracks = record { listed = λ c h. absurd (h refl); kept = λ c i. elim i [ ] };
}

abbrev one_block : HashWindow
one_block = record_block_hash (pos 2) 5 35 empty_window

record_block_hash-IsConsistent_example : IsConsistent one_block × (length one_block.hash_order ≤ 2)
record_block_hash-IsConsistent_example =
    record_block_hash-IsConsistent 1 5 35 empty_window empty_window-IsConsistent
