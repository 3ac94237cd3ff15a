-- ===== src/Memory/Order.antt =====
-- The order in which memorychain.go returns events, and the sort that makes it.
use go_block_walk.Prelude.{
  ◌<◌, ◌≡◌, true, ◌⊎◌, inl, inr, ◌↔◌, Bool-cases, List, [], ◌∷◌, All, In, here, there, In-cons,
  arith,
}
use go_block_walk.Memory.{IndexedEvent, less, insert, sorted}

-- Block number first, then log index.
abbrev pub Before : IndexedEvent → IndexedEvent → Type 0
Before e f =
    (e.block_number < f.block_number)
    ⊎ ((e.block_number ≡ f.block_number) × (e.log_index < f.log_index))

abbrev pub Ascending : List IndexedEvent → Type 0
Ascending [] = Unit
Ascending (e ∷ es) = All (Before e) es × Ascending es

less_iff : (e f : IndexedEvent) → (less e f ≡ true) ↔ Before e f
unfolding less
less_iff e f = ground arith

Before-trans : (e f g : IndexedEvent) → Before e f → Before f g → Before e g
Before-trans e f g p q = ground arith

All-Before-trans :
    (e f : IndexedEvent) (es : List IndexedEvent)
    → Before e f
    → All (Before f) es
    → All (Before e) es
All-Before-trans e f [] p h = tt
All-Before-trans e f (g ∷ gs) p h = (Before-trans e f g p h.0, All-Before-trans e f gs p h.1)

-- Two events with different keys, of the same chain: one is before the other.
abbrev pub Apart : IndexedEvent → IndexedEvent → Type 0
Apart e f = Before e f ⊎ Before f e

All-insert :
    (P : IndexedEvent → Type 0) (e : IndexedEvent) (es : List IndexedEvent)
    → P e
    → All P es
    → All P (insert e es)
unfolding insert
All-insert P e [] p h = (p, tt)
All-insert P e (f ∷ fs) p h = elim (Bool-cases (less f e)) [
  | inl l ↦ rw l (h.0, All-insert P e fs p h.1)
  | inr l ↦ rw l (p, h)
]

insert-Ascending :
    (e : IndexedEvent) (es : List IndexedEvent)
    → Ascending es
    → All (Apart e) es
    → Ascending (insert e es)
unfolding insert
insert-Ascending e [] a h = (tt, tt)
insert-Ascending e (f ∷ fs) a h = elim (Bool-cases (less f e)) [
  | inl l ↦
      rw l (All-insert (Before f) e fs ((less_iff f e).0 l) a.0, insert-Ascending e fs a.1 h.1)
  | inr l ↦
      let b : Before e f = ground (arith, less_iff f e, h.0) in
      rw l ((b, All-Before-trans e f fs b a.0), a)
]

All-sorted : (P : IndexedEvent → Type 0) (es : List IndexedEvent) → All P es → All P (sorted es)
unfolding sorted
All-sorted P [] h = tt
All-sorted P (e ∷ es) h = All-insert P e (sorted es) h.0 (All-sorted P es h.1)

abbrev pub Pairwise : List IndexedEvent → Type 0
Pairwise [] = Unit
Pairwise (e ∷ es) = All (Apart e) es × Pairwise es

pub sorted-Ascending : (es : List IndexedEvent) → Pairwise es → Ascending (sorted es)
unfolding sorted
sorted-Ascending [] h = tt
sorted-Ascending (e ∷ es) h =
    insert-Ascending e (sorted es) (sorted-Ascending es h.1) (All-sorted (Apart e) es h.0)

In-insert_iff :
    (x e : IndexedEvent) (es : List IndexedEvent) → In x (insert e es) ↔ ((x ≡ e) ⊎ In x es)
unfolding insert
In-insert_iff x e [] = (λ i. In-cons i, λ s. elim s [ inl q ↦ here q | inr i ↦ there i ])
In-insert_iff x e (f ∷ fs) = elim (Bool-cases (less f e)) [
  | inl l ↦ rw l (
    (λ i. elim (In-cons i) [
      | inl q ↦ inr (here q)
      | inr j ↦ elim ((In-insert_iff x e fs).0 j) [ inl q ↦ inl q | inr k ↦ inr (there k) ]
    ]),
    (λ s. elim s [
      | inl q ↦ there ((In-insert_iff x e fs).1 (inl q))
      | inr i ↦ elim (In-cons i) [
        | inl q ↦ here q
        | inr j ↦ there ((In-insert_iff x e fs).1 (inr j))
      ]
    ]),
  )
  | inr l ↦ rw l (λ i. In-cons i, λ s. elim s [ inl q ↦ here q | inr i ↦ there i ])
]

pub In-sorted_iff : (x : IndexedEvent) (es : List IndexedEvent) → In x (sorted es) ↔ In x es
unfolding sorted
In-sorted_iff x [] = (λ i. i, λ i. i)
In-sorted_iff x (e ∷ es) = (
  (λ i. elim ((In-insert_iff x e (sorted es)).0 i) [
    | inl q ↦ here q
    | inr j ↦ there ((In-sorted_iff x es).0 j)
  ]),
  (λ i.
      (In-insert_iff x e (sorted es)).1
        (elim (In-cons i) [ inl q ↦ inl q | inr j ↦ inr ((In-sorted_iff x es).1 j) ])),
)
