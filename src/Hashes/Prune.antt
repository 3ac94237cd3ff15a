-- ===== src/Hashes/Prune.antt =====
-- Pruning after a rewind: exactly the entries above the new position are forgotten.
use go_block_walk.Prelude.{
  ℕ, ◌≤◌, ◌<◌, ◌≡◌, ◌⊎◌, inl, inr, refl, true, false, List, [], ◌∷◌, none, In, here, there, arith,
  Bool-cases, Option-cases, In-cons, ltb, ltb→lt,
}
use go_block_walk.Hashes.{HashMap, update, HashWindow, prune, prune_hashes_above}
use go_block_walk.Hashes.Window.{Distinct, IsConsistent}

prune_recent :
    (b c : ℕ) (m : HashMap) (order : List ℕ)
    → (prune b m order).recent_hashes c ≡ m c
      ⊎ ((b < c) × ((prune b m order).recent_hashes c ≡ none))
unfolding prune
prune_recent b c m [] = inl refl
prune_recent b c m (x ∷ xs) =
    ground (arith, prune_recent b c (update m x none) xs, prune_recent b c m xs)

In-prune :
    (b c : ℕ) (m : HashMap) (order : List ℕ)
    → In c (prune b m order).hash_order
    → In c order × (c ≤ b)
unfolding prune
In-prune b c m [] i = elim i [ ]
In-prune b c m (x ∷ xs) i = elim (Bool-cases (ltb b x)) [
  | inl above ↦
      let (j, le) = In-prune b c (update m x none) xs (rw (above, prune) at i) in (there j, le)
  | inr below ↦ elim (In-cons (rw (below, prune) at i)) [
    | inl e ↦ (here e, ground (arith, below))
    | inr j ↦ let (k, le) = In-prune b c m xs j in (there k, le)
  ]
]

prune-In :
    (b c : ℕ) (m : HashMap) (order : List ℕ)
    → In c order
    → c ≤ b
    → In c (prune b m order).hash_order
unfolding prune
prune-In b c m [] i le = elim i [ ]
prune-In b c m (x ∷ xs) i le = elim (In-cons i) [
  | inl e ↦ let below : ltb b x ≡ false = ground arith in rw (below, prune) (here e)
  | inr j ↦ elim (Bool-cases (ltb b x)) [
    | inl above ↦ rw (above, prune) (prune-In b c (update m x none) xs j le)
    | inr below ↦ rw (below, prune) (there (prune-In b c m xs j le))
  ]
]

prune_keeps_none :
    (b c : ℕ) (m : HashMap) (order : List ℕ) → m c ≡ none → (prune b m order).recent_hashes c ≡ none
prune_keeps_none b c m order h = ground (arith, prune_recent b c m order)

prune_above :
    (b c : ℕ) (m : HashMap) (order : List ℕ)
    → In c order
    → b < c
    → (prune b m order).recent_hashes c ≡ none
unfolding prune
prune_above b c m [] i lt = elim i [ ]
prune_above b c m (x ∷ xs) i lt = elim (In-cons i) [
  | inl e ↦
      let above : ltb b x ≡ true = ground arith in
      rw (above, prune) (prune_keeps_none b c (update m x none) xs (ground arith))
  | inr j ↦ elim (Bool-cases (ltb b x)) [
    | inl above ↦ rw (above, prune) (prune_above b c (update m x none) xs j lt)
    | inr below ↦ rw (below, prune) (prune_above b c m xs j lt)
  ]
]

Distinct-prune :
    (b : ℕ) (m : HashMap) (order : List ℕ) → Distinct order → Distinct (prune b m order).hash_order
unfolding prune
Distinct-prune b m [] d = tt
Distinct-prune b m (x ∷ xs) d = elim (Bool-cases (ltb b x)) [
  | inl above ↦ rw (above, prune) (Distinct-prune b (update m x none) xs d.1)
  | inr below ↦ rw (below, prune) ((λ i. d.0 (In-prune b x m xs i).0), Distinct-prune b m xs d.1)
]

-- After `pruneHashesAbove(b)` a consistent window is consistent, has no entry above `b`, and has the
-- entries that it had up to `b`.
pub prune_hashes_above_lem :
    (b : ℕ) (w : HashWindow)
    → IsConsistent w
    → let w' = prune_hashes_above b w in
      IsConsistent w'
      × ((c : ℕ) → b < c → w'.recent_hashes c ≡ none)
      × ((c : ℕ) → c ≤ b → w'.recent_hashes c ≡ w.recent_hashes c)
unfolding prune_hashes_above
prune_hashes_above_lem b w h = (
  record {
    distinct = Distinct-prune b m order h.distinct;
    tracks = record {
      listed = λ c n. elim (prune_recent b c m order) [
        | inl same ↦ elim (Bool-cases (ltb b c)) [
          | inl above ↦ absurd (n (gone c (ltb→lt b c above)))
          | inr below ↦
              prune-In b c m order (h.tracks.listed c (rw same at n)) (ground (arith, below))
        ]
        | inr (lt, none_left) ↦ absurd (n none_left)
      ];
      kept = λ c i. elim (prune_recent b c m order) [
        | inl same ↦ rw same (h.tracks.kept c (In-prune b c m order i).0)
        | inr (lt, _) ↦ absurd (let (_, le) = In-prune b c m order i in omega arith)
      ];
    };
  },
  gone,
  λ c le. ground (arith, prune_recent b c m order),
)
  where
    m : HashMap
    m = w.recent_hashes

    order : List ℕ
    order = w.hash_order

    gone : (c : ℕ) → b < c → (prune b w.recent_hashes w.hash_order).recent_hashes c ≡ none
    gone c lt = elim (Option-cases (w.recent_hashes c)) [
      | inl e ↦ prune_keeps_none b c w.recent_hashes w.hash_order e
      | inr (x, e) ↦ prune_above b c w.recent_hashes w.hash_order (h.tracks.listed c (λ n. cc)) lt
    ]
