-- ===== src/Memory/Tests.antt =====
-- The chain storage on concrete events.
use go_block_walk.Prelude.{ℕ, ◌↔◌, some, [], codes, In}
use go_block_walk.Prelude.Int.{pos}
use go_block_walk.Memory.{
  IndexedEvent, MemoryChainStorage, new_memory_chain_storage, save_indexed_event,
  get_indexed_events,
}
use go_block_walk.Memory.Saving.{IsStore, save_indexed_event-IsStore}
use go_block_walk.Memory.Scores.{new_memory}
use go_block_walk.Memory.Storage.{memory, memory-KeepsPositions}
use go_block_walk.Ports.Storage.{KeepsPositions}
use go_block_walk.Memory.Order.{Ascending}
use go_block_walk.Memory.Querying.{Matches, get_indexed_events_lem}

abbrev event_at : ℕ → ℕ → IndexedEvent
event_at block index = record {
  id = 0;
  chain = codes "main";
  block_number = block;
  tx_hash = codes "0x1";
  address = codes "0x2";
  topics = [];
  data_field = [];
  log_index = index;
  indexed_at = pos 0;
}

abbrev one_event : MemoryChainStorage
one_event = (save_indexed_event new_memory_chain_storage (some (event_at 7 1)) (pos 9)).1

one_event-IsStore : IsStore one_event
unfolding new_memory_chain_storage
one_event-IsStore =
    (save_indexed_event-IsStore new_memory_chain_storage (event_at 7 1) (pos 9)
      (record { numbered = tt })).1

get_indexed_events_lem_example :
    Ascending (get_indexed_events one_event (codes "main") 5 8)
    × ((e : IndexedEvent)
        → In e (get_indexed_events one_event (codes "main") 5 8)
          ↔ (In e one_event.events × Matches (codes "main") 5 8 e))
get_indexed_events_lem_example =
    get_indexed_events_lem one_event (codes "main") 5 8 one_event-IsStore

memory-KeepsPositions_example :
    KeepsPositions (memory {F = ℕ} (λ _ scores. scores) (pos 9)).chain_storage new_memory
memory-KeepsPositions_example = memory-KeepsPositions (λ _ scores. scores) (pos 9)
