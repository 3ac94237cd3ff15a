-- ===== src/Memory/Scores/Tests.antt =====
-- Two providers; the first one's score is written twice.
use go_block_walk.Prelude.{ℕ, ◌≡◌, refl, codes}
use go_block_walk.Prelude.Int.{pos}
use go_block_walk.Prelude.Strings.{text_eq}
use go_block_walk.Memory.Scores.{
  MemoryScoreStorage, new_memory_score_storage, find_score, put_score, set_provider_score,
}
use go_block_walk.Memory.Scores.Ids.{IsScoreStore}

abbrev empty : MemoryScoreStorage ℕ
empty = new_memory_score_storage

empty-IsScoreStore : IsScoreStore empty
unfolding new_memory_score_storage
empty-IsScoreStore = record { separate = tt; numbered = tt }

abbrev one : MemoryScoreStorage ℕ
one = set_provider_score empty (codes "a") 10 0 (pos 1)

-- The id of "a" is kept, and "b" gets the next one.
ids :
    let m =
      set_provider_score (set_provider_score one (codes "b") 5 0 (pos 2)) (codes "a") 7 2 (pos 3) in
    m.next_score_id ≡ 2
unfolding set_provider_score new_memory_score_storage find_score put_score text_eq
ids = refl
