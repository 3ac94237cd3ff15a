-- ===== src/Memory.antt =====
-- memorychain.go: MemoryChainStorage, with IndexedEvent of ports.go. The clock's reading is an
-- argument, and the lock is left out.
pub mod Quotas
pub mod Scores
pub mod Saving
pub mod Order
pub mod Querying
pub mod Storage
mod Tests
use go_block_walk.Prelude.{
  ℕ, suc, Bool, true, false, ◌&&◌, ◌||◌, Option, none, some, List, [], ◌∷◌, Text, codes, ltb, leb,
  ◌==◌, if◌then◌else◌,
}
use go_block_walk.Prelude.Int.{ℤ}
use go_block_walk.Prelude.Strings.{text_eq}
use go_block_walk.Errors.{GoError, plain}

pub record IndexedEvent : Type 0 where
  pub id : ℕ
  pub chain : Text
  pub block_number : ℕ
  pub tx_hash : Text
  pub address : Text
  pub topics : Text
  pub data_field : Text
  pub log_index : ℕ
  pub indexed_at : ℤ

-- The map of events has them under a key that is made of their own fields: it is the list of its
-- values, the newest first.
pub record MemoryChainStorage : Type 0 where
  pub last_blocks : Text → Option ℕ
  pub events : List IndexedEvent
  pub next_event_id : ℕ

unfoldable pub new_memory_chain_storage : MemoryChainStorage
new_memory_chain_storage = record { last_blocks = λ _. none; events = []; next_event_id = 0 }

-- A missing entry reads as 0.
abbrev or_zero : Option ℕ → ℕ
or_zero none = 0
or_zero (some b) = b

unfoldable pub get_last_block : MemoryChainStorage → Text → ℕ
get_last_block m chain = or_zero (m.last_blocks chain)

unfoldable pub set_last_block : MemoryChainStorage → Text → ℕ → MemoryChainStorage
set_last_block m chain b = record m {
  last_blocks = λ c. if text_eq c chain then some b else m.last_blocks c;
}

-- e is stored under eventKey{chain, block, index}
unfoldable pub has_key : Text → ℕ → ℕ → IndexedEvent → Bool
has_key chain block index e =
    text_eq e.chain chain && e.block_number == block && e.log_index == index

unfoldable pub find_key : Text → ℕ → ℕ → List IndexedEvent → Bool
find_key chain block index [] = false
find_key chain block index (e ∷ es) = has_key chain block index e || find_key chain block index es

unfoldable pub is_event_indexed : MemoryChainStorage → Text → ℕ → ℕ → Bool
is_event_indexed m chain block index = find_key chain block index m.events

unfoldable pub save_indexed_event :
    MemoryChainStorage → Option IndexedEvent → ℤ → Option GoError × MemoryChainStorage
save_indexed_event m none now = (some (plain (codes "idx: event is nil")), m)
save_indexed_event m (some e) now =
    if find_key e.chain e.block_number e.log_index m.events then (none, m) else (
      none,
      record m {
        events = record e { id = suc m.next_event_id; indexed_at = now } ∷ m.events;
        next_event_id = suc m.next_event_id;
      },
    )

unfoldable pub selected : Text → ℕ → ℕ → IndexedEvent → Bool
selected chain from to e = text_eq e.chain chain && leb from e.block_number && leb e.block_number to

unfoldable pub select : Text → ℕ → ℕ → List IndexedEvent → List IndexedEvent
select chain from to [] = []
select chain from to (e ∷ es) =
    let rest = select chain from to es in if selected chain from to e then e ∷ rest else rest

-- The order that sort.Slice is given.
unfoldable pub less : IndexedEvent → IndexedEvent → Bool
less e f =
    if e.block_number == f.block_number
    then ltb e.log_index f.log_index
    else ltb e.block_number f.block_number

pub insert : IndexedEvent → List IndexedEvent → List IndexedEvent
insert e [] = e ∷ []
insert e (f ∷ fs) = let rest = insert e fs in if less f e then f ∷ rest else e ∷ f ∷ fs

pub sorted : List IndexedEvent → List IndexedEvent
sorted [] = []
sorted (e ∷ es) = insert e (sorted es)

unfoldable pub get_indexed_events : MemoryChainStorage → Text → ℕ → ℕ → List IndexedEvent
get_indexed_events m chain from to = sorted (select chain from to m.events)
