-- ===== src/Hashes.antt =====
-- The reorg bookkeeping of indexer.go: `recentHashes` with `hashOrder`, and the two functions that
-- change them. A map is a function into `Option`; a hash is a number.
pub mod Window
pub mod Prune
mod Tests
use go_block_walk.Prelude.{
  ℕ, ◌≡◌, Bool, List, [], ◌∷◌, ◌++◌, Option, none, some, length, ltb, ◌==◌, if◌then◌else◌,
}
use go_block_walk.Prelude.Int.{ℤ, pos, leb_ℤ, pos_part}

abbrev pub HashMap : Type 0
HashMap = ℕ → Option ℕ

-- m[b] = h, and delete(m, b)
abbrev pub update : HashMap → ℕ → Option ℕ → HashMap
update m b o c = if c == b then o else m c

pub record HashWindow : Type 0 where
  pub recent_hashes : HashMap
  pub hash_order : List ℕ

abbrev pub empty_window : HashWindow
empty_window = record { recent_hashes = λ _. none; hash_order = [] }

-- for len(idx.hashOrder) > idx.reorgDepth { delete the first }
pub trim : ℕ → HashMap → List ℕ → HashWindow
trim depth m [] = record { recent_hashes = m; hash_order = [] }
trim depth m (b ∷ bs) =
    let rest = trim depth (update m b none) bs in
    if ltb depth (length (b ∷ bs)) then rest else record { recent_hashes = m; hash_order = b ∷ bs }

-- hashOrder = append(hashOrder, b) unless the block is there
pub append_new : Option ℕ → List ℕ → ℕ → List ℕ
append_new none order b = order ++ b ∷ []
append_new (some _) order b = order

unfoldable pub record_block_hash : ℤ → ℕ → ℕ → HashWindow → HashWindow
unfolding trim append_new
record_block_hash reorg_depth b hash w =
    if leb_ℤ reorg_depth (pos 0)
    then w
    else trim (pos_part reorg_depth) (update w.recent_hashes b (some hash))
        (append_new (w.recent_hashes b) w.hash_order b)

pub prune : ℕ → HashMap → List ℕ → HashWindow
prune b m [] = record { recent_hashes = m; hash_order = [] }
prune b m (c ∷ cs) =
    if ltb b c
    then prune b (update m c none) cs
    else let kept = prune b m cs in record kept { hash_order = c ∷ kept.hash_order }

unfoldable pub prune_hashes_above : ℕ → HashWindow → HashWindow
unfolding prune
prune_hashes_above b w = prune b w.recent_hashes w.hash_order
