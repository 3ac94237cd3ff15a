-- ===== src/Memory/Saving.antt =====
-- SaveIndexedEvent of memorychain.go: an upsert that keeps the first event of each key.
use go_block_walk.Prelude.{
  ℕ, ◌-◌, ◌≤◌, ◌≡◌, true, false, ◌||◌, Bool-cases, inl, inr, subst, ◌∙◌, some, none, List, [], ◌∷◌,
  Text, arith,
}
use go_block_walk.Prelude.Int.{ℤ}
use go_block_walk.Prelude.Strings.{text_eq_refl, eq_of_text_eq}
use go_block_walk.Memory.{
  IndexedEvent, MemoryChainStorage, new_memory_chain_storage, has_key, find_key, is_event_indexed,
  save_indexed_event,
}

-- The events of the list have ids from `n` down, each id once, and no two have the same key.
abbrev pub Numbered : ℕ → List IndexedEvent → Type 0
Numbered n [] = Unit
Numbered n (e ∷ es) =
    (1 ≤ e.id)
    × (e.id ≤ n)
    × (find_key e.chain e.block_number e.log_index es ≡ false)
    × Numbered (e.id - 1) es

pub record IsStore (m : MemoryChainStorage) : Type 0 where
  pub numbered : Numbered m.next_event_id m.events

-- Saving keeps the events' ids distinct, between 1 and the counter, and their keys distinct; the
-- empty storage has both.
pub save_indexed_event-IsStore :
    (m : MemoryChainStorage) (e : IndexedEvent) (now : ℤ)
    → IsStore m
    → IsStore new_memory_chain_storage × IsStore (save_indexed_event m (some e) now).1
unfolding save_indexed_event new_memory_chain_storage
save_indexed_event-IsStore m e now s = (
  record { numbered = tt },
  elim (Bool-cases (find_key e.chain e.block_number e.log_index m.events)) [
    | inl found ↦ rw found s
    | inr fresh ↦ rw fresh (record {
      numbered = (
        omega arith,
        omega arith,
        fresh,
        subst (λ n. Numbered n m.events) (omega arith) s.numbered,
      );
    })
  ],
)

has_key_self : (e : IndexedEvent) → has_key e.chain e.block_number e.log_index e ≡ true
unfolding has_key
has_key_self e = ground (arith, text_eq_refl e.chain)

-- A key that an event has is the event's own.
find_key_same :
    (chain : Text) (block index : ℕ) (e : IndexedEvent) (es : List IndexedEvent)
    → has_key chain block index e ≡ true
    → find_key chain block index es ≡ find_key e.chain e.block_number e.log_index es
unfolding has_key
find_key_same chain block index e es h =
    let c : e.chain ≡ chain = ground (arith, eq_of_text_eq e.chain chain) in
    let b : e.block_number ≡ block = ground arith in
    let i : e.log_index ≡ index = ground arith in rw (c, b, i)

-- After a save exactly the saved event's key is indexed beside those that were.
pub is_event_indexed-save :
    (m : MemoryChainStorage) (e : IndexedEvent) (now : ℤ) (chain : Text) (block index : ℕ)
    → is_event_indexed (save_indexed_event m (some e) now).1 chain block index
      ≡ has_key chain block index e || is_event_indexed m chain block index
unfolding save_indexed_event is_event_indexed find_key has_key
is_event_indexed-save m e now chain block index =
    elim (Bool-cases (find_key e.chain e.block_number e.log_index m.events)) [
      | inl found ↦ elim (Bool-cases (has_key chain block index e)) [
        | inl own ↦
            let f = find_key_same chain block index e m.events own in rw (found, own) (f ∙ found)
        | inr other ↦ rw (found, other)
      ]
      | inr fresh ↦ rw fresh
    ]

-- Saving an event whose key was saved before changes nothing, whenever and with whatever content it
-- comes again.
pub save_indexed_event-again :
    (m : MemoryChainStorage) (e f : IndexedEvent) (now later : ℤ)
    → has_key e.chain e.block_number e.log_index f ≡ true
    → save_indexed_event (save_indexed_event m (some f) now).1 (some e) later
      ≡ (none, (save_indexed_event m (some f) now).1)
unfolding is_event_indexed save_indexed_event
save_indexed_event-again m e f now later same =
    let found : find_key e.chain e.block_number e.log_index
          (save_indexed_event m (some f) now).1.events
        ≡ true =
      is_event_indexed-save m f now e.chain e.block_number e.log_index ∙ rw same in
    rw found
