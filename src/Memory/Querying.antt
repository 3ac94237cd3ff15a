-- ===== src/Memory/Querying.antt =====
-- GetIndexedEvents of memorychain.go: exactly the events of the range, in order.
use go_block_walk.Prelude.{
  ℕ, ◌-◌, ◌≤◌, ◌≡◌, true, false, inl, inr, ◌↔◌, ap, Bool-cases, List, [], ◌∷◌, Text, All, In, here,
  there, In-cons, arith, ◌∙◌,
}
use go_block_walk.Prelude.Strings.{text_eq, text_eq_refl, eq_of_text_eq}
use go_block_walk.Memory.{
  IndexedEvent, MemoryChainStorage, has_key, find_key, selected, select, get_indexed_events,
}
use go_block_walk.Memory.Saving.{Numbered, IsStore}
use go_block_walk.Memory.Order.{Ascending, Apart, Pairwise, sorted-Ascending, In-sorted_iff}

In-select_iff :
    (chain : Text) (from to : ℕ) (x : IndexedEvent) (es : List IndexedEvent)
    → In x (select chain from to es) ↔ (In x es × (selected chain from to x ≡ true))
unfolding select
In-select_iff chain from to x [] = (λ i. elim i [ ], λ p. elim p.0 [ ])
In-select_iff chain from to x (e ∷ es) = elim (Bool-cases (selected chain from to e)) [
  | inl s ↦ rw s (
    (λ i. elim (In-cons i) [
      | inl q ↦ (here q, ap (selected chain from to) q ∙ s)
      | inr j ↦ let p = (In-select_iff chain from to x es).0 j in (there p.0, p.1)
    ]),
    (λ p. elim (In-cons p.0) [
      | inl q ↦ here q
      | inr j ↦ there ((In-select_iff chain from to x es).1 (j, p.1))
    ]),
  )
  | inr s ↦ rw s (
    (λ i. let p = (In-select_iff chain from to x es).0 i in (there p.0, p.1)),
    (λ p. elim (In-cons p.0) [
      | inl q ↦ absurd (ground (arith, p.1, ap (selected chain from to) q))
      | inr j ↦ (In-select_iff chain from to x es).1 (j, p.1)
    ]),
  )
]

Apart-of_keys :
    (chain : Text) (from to : ℕ) (e f : IndexedEvent)
    → selected chain from to e ≡ true
    → selected chain from to f ≡ true
    → has_key e.chain e.block_number e.log_index f ≡ false
    → Apart e f
unfolding selected has_key
Apart-of_keys chain from to e f s t n =
    let c : e.chain ≡ chain = ground (arith, eq_of_text_eq e.chain chain) in
    let d : f.chain ≡ chain = ground (arith, eq_of_text_eq f.chain chain) in
    let same : text_eq f.chain e.chain ≡ true = rw (c, d) (text_eq_refl chain) in ground arith

-- In a storage with distinct keys, events of one chain are apart.
select-Apart :
    (chain : Text) (from to : ℕ) (e : IndexedEvent) (es : List IndexedEvent)
    → selected chain from to e ≡ true
    → find_key e.chain e.block_number e.log_index es ≡ false
    → All (Apart e) (select chain from to es)
unfolding select find_key
select-Apart chain from to e [] s n = tt
select-Apart chain from to e (f ∷ fs) s n = elim (Bool-cases (selected chain from to f)) [
  | inl t ↦
      rw (t, select)
        (
          Apart-of_keys chain from to e f s t (ground arith),
          select-Apart chain from to e fs s (ground arith),
        )
  | inr t ↦ rw (t, select) (select-Apart chain from to e fs s (ground arith))
]

select-Pairwise :
    (chain : Text) (from to n : ℕ) (es : List IndexedEvent)
    → Numbered n es
    → Pairwise (select chain from to es)
unfolding select
select-Pairwise chain from to n [] h = tt
select-Pairwise chain from to n (e ∷ es) h = elim (Bool-cases (selected chain from to e)) [
  | inl s ↦
      rw s (select-Apart chain from to e es s h.2, select-Pairwise chain from to (e.id - 1) es h.3)
  | inr s ↦ rw s (select-Pairwise chain from to (e.id - 1) es h.3)
]

-- What a query for a chain and a range of blocks asks of an event.
abbrev pub Matches : Text → ℕ → ℕ → IndexedEvent → Type 0
Matches chain from to e = (e.chain ≡ chain) × (from ≤ e.block_number) × (e.block_number ≤ to)

selected_iff :
    (chain : Text) (from to : ℕ) (e : IndexedEvent)
    → (selected chain from to e ≡ true) ↔ Matches chain from to e
unfolding selected
selected_iff chain from to e = (
  (λ s. (eq_of_text_eq e.chain chain (ground arith), ground arith, ground arith)),
  (λ m. let same : text_eq e.chain chain ≡ true = rw (m.0) (text_eq_refl chain) in ground arith),
)

-- A query returns exactly the stored events of the chain in the range of blocks, each before the
-- next in block number and log index, so none twice.
pub get_indexed_events_lem :
    (m : MemoryChainStorage) (chain : Text) (from to : ℕ)
    → IsStore m
    → Ascending (get_indexed_events m chain from to)
      × ((e : IndexedEvent)
          → In e (get_indexed_events m chain from to) ↔ (In e m.events × Matches chain from to e))
unfolding get_indexed_events
get_indexed_events_lem m chain from to s = (
  sorted-Ascending _ (select-Pairwise chain from to m.next_event_id m.events s.numbered),
  λ e. (
    (λ i.
        let p = (In-select_iff chain from to e m.events).0 ((In-sorted_iff e _).0 i) in
        (p.0, (selected_iff chain from to e).0 p.1)),
    (λ p.
        (In-sorted_iff e _).1
          ((In-select_iff chain from to e m.events).1 (p.0, (selected_iff chain from to e).1 p.1))),
  ),
)
