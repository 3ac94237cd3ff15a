-- ===== src/Hashes/Window.antt =====
-- The window stays consistent: at most `reorgDepth` blocks, each once, and the map has exactly them.
use go_block_walk.Prelude.{
  ℕ, suc, ◌+◌, ◌≤◌, ◌≡◌, ◌≢◌, ◌↔◌, ◌⊎◌, inl, inr, refl, List, [], ◌∷◌, ◌++◌, Option, none, some,
  length, In, In-append_left, In-append_right, here, there, arith, Bool-cases, ltb, ◌==◌, ==_iff,
  subst, sym, lt→leb, true, false, ◌∙◌,
}
use go_block_walk.Prelude.Int.{pos}
use go_block_walk.Hashes.{HashMap, update, HashWindow, trim, append_new, record_block_hash}

abbrev pub Distinct : List ℕ → Type 0
Distinct [] = Unit
Distinct (b ∷ bs) = (¬ In b bs) × Distinct bs

-- The map has an entry for exactly the listed blocks.
pub record Tracks (m : HashMap) (order : List ℕ) : Type 0 where
  pub listed : (b : ℕ) → m b ≢ none → In b order
  pub kept : (b : ℕ) → In b order → m b ≢ none

pub record IsConsistent (w : HashWindow) : Type 0 where
  pub distinct : Distinct w.hash_order
  pub tracks : Tracks w.recent_hashes w.hash_order

In-ne : {b c : ℕ} {bs : List ℕ} → In c (b ∷ bs) → c ≢ b → In c bs
In-ne (here e) n = absurd (n e)
In-ne (there i) n = i

-- Deleting the oldest entry.
Tracks-delete :
    (m : HashMap) (b : ℕ) (bs : List ℕ)
    → ¬ In b bs
    → Tracks m (b ∷ bs)
    → Tracks (update m b none) bs
Tracks-delete m b bs fresh t = record {
  listed = λ c h. elim (Bool-cases (c == b)) [
    | inl e ↦ absurd (h (rw e))
    | inr e ↦ In-ne (t.listed c (rw e at h)) (ground (arith, e))
  ];
  kept = λ c i. elim (Bool-cases (c == b)) [
    | inl e ↦ absurd (fresh (subst (λ x. In x bs) ((==_iff c b).0 e) i))
    | inr e ↦ rw e (t.kept c (there i))
  ];
}

trim-IsConsistent :
    (depth : ℕ) (m : HashMap) (order : List ℕ)
    → Distinct order
    → Tracks m order
    → IsConsistent (trim depth m order) × (length (trim depth m order).hash_order ≤ depth)
unfolding trim
trim-IsConsistent depth m [] d t = (record { distinct = d; tracks = t }, omega arith)
trim-IsConsistent depth m (b ∷ bs) d t = elim (Bool-cases (ltb depth (length (b ∷ bs)))) [
  | inl long ↦
      rw long (trim-IsConsistent depth (update m b none) bs d.1 (Tracks-delete m b bs d.0 t))
  | inr fits ↦ rw fits (record { distinct = d; tracks = t }, ground (arith, fits))
]

In-append_one : {c b : ℕ} (xs : List ℕ) → In c (xs ++ b ∷ []) → In c xs ⊎ (c ≡ b)
In-append_one [] (here e) = inr e
In-append_one [] (there i) = elim i [ ]
In-append_one (x ∷ xs) (here e) = inl (here e)
In-append_one (x ∷ xs) (there i) = elim (In-append_one xs i) [
  | inl j ↦ inl (there j)
  | inr e ↦ inr e
]

Distinct-append : (xs : List ℕ) (b : ℕ) → Distinct xs → ¬ In b xs → Distinct (xs ++ b ∷ [])
Distinct-append [] b d n = ((λ i. elim i [ ]), tt)
Distinct-append (x ∷ xs) b d n = (
  (λ i. elim (In-append_one xs i) [ inl j ↦ d.0 j | inr e ↦ n (here (sym e)) ]),
  Distinct-append xs b d.1 (λ i. n (there i)),
)

append_new-Distinct :
    (o : Option ℕ) (order : List ℕ) (b : ℕ)
    → Distinct order
    → (o ≡ none → ¬ In b order)
    → Distinct (append_new o order b)
unfolding append_new
append_new-Distinct none order b d n = Distinct-append order b d (n refl)
append_new-Distinct (some _) order b d n = d

append_new-Tracks :
    (m : HashMap) (o : Option ℕ) (order : List ℕ) (b hash : ℕ)
    → m b ≡ o
    → Tracks m order
    → Tracks (update m b (some hash)) (append_new o order b)
unfolding append_new
append_new-Tracks m none order b hash e t = record {
  listed = λ c h. elim (Bool-cases (c == b)) [
    | inl q ↦ In-append_right order (here ((==_iff c b).0 q))
    | inr q ↦ In-append_left (b ∷ []) (t.listed c (rw q at h))
  ];
  kept = λ c i. elim (Bool-cases (c == b)) [
    | inl q ↦ rw q (λ x. cc)
    | inr q ↦
        rw q
          (elim (In-append_one order i) [ inl j ↦ t.kept c j | inr x ↦ absurd (ground (arith, q)) ])
  ];
}
append_new-Tracks m (some x) order b hash e t = record {
  listed = λ c h. elim (Bool-cases (c == b)) [
    | inl q ↦ subst (λ x. In x order) (sym ((==_iff c b).0 q)) (t.listed b (λ n. cc))
    | inr q ↦ t.listed c (rw q at h)
  ];
  kept = λ c i. elim (Bool-cases (c == b)) [ inl q ↦ rw q (λ x. cc) | inr q ↦ rw q (t.kept c i) ];
}

record_block_hash_lem :
    (depth b hash : ℕ) (w : HashWindow)
    → record_block_hash (pos (suc depth)) b hash w
      ≡ trim
          (suc depth)
          (update w.recent_hashes b (some hash))
          (append_new (w.recent_hashes b) w.hash_order b)
unfolding record_block_hash
record_block_hash_lem depth b hash w = rw (lt→leb (suc depth + 0) 0 (omega arith))

-- With detection on, recording a block keeps a consistent window consistent and leaves at most
-- `reorgDepth` blocks in it.
pub record_block_hash-IsConsistent :
    (depth b hash : ℕ) (w : HashWindow)
    → IsConsistent w
    → let w' = record_block_hash (pos (suc depth)) b hash w in
      IsConsistent w' × (length w'.hash_order ≤ suc depth)
record_block_hash-IsConsistent depth b hash w c = rw (record_block_hash_lem depth b hash w) (
    trim-IsConsistent (suc depth) _ _
      (append_new-Distinct (w.recent_hashes b) w.hash_order b c.distinct
        (λ e i. c.tracks.kept b i e))
      (append_new-Tracks w.recent_hashes (w.recent_hashes b) w.hash_order b hash refl c.tracks))

-- Trimming never drops the newest entry.
trim_last :
    (depth b : ℕ) (m : HashMap) (xs : List ℕ)
    → ¬ In b xs
    → (trim (suc depth) m (xs ++ b ∷ [])).recent_hashes b ≡ m b
unfolding trim
trim_last depth b m [] n = ground arith
trim_last depth b m (x ∷ xs) n = elim (Bool-cases (ltb (suc depth) (length (x ∷ xs ++ b ∷ [])))) [
  | inl long ↦ rw long (
      trim_last depth b (update m x none) xs (λ i. n (there i))
      ∙ ground (arith, other (==_iff b x)))
  | inr fits ↦ rw fits
]
  where
    other : ((b == x) ≡ true) ↔ (b ≡ x) → (b == x) ≡ false
    other q = elim (Bool-cases (b == x)) [ inl e ↦ absurd (n (here (q.0 e))) | inr e ↦ e ]

trim_short :
    (depth : ℕ) (m : HashMap) (xs : List ℕ)
    → length xs ≤ depth
    → trim depth m xs ≡ record { recent_hashes = m; hash_order = xs }
unfolding trim
trim_short depth m [] h = refl
trim_short depth m (x ∷ xs) h = ground arith

append_new-trim :
    (depth b hash : ℕ) (m : HashMap) (o : Option ℕ) (order : List ℕ)
    → (o ≡ none → ¬ In b order)
    → length order ≤ suc depth
    → (trim (suc depth) (update m b (some hash)) (append_new o order b)).recent_hashes b ≡ some hash
unfolding append_new
append_new-trim depth b hash m none order n h =
    trim_last depth b (update m b (some hash)) order (n refl) ∙ ground arith
append_new-trim depth b hash m (some _) order n h =
    rw (trim_short (suc depth) (update m b (some hash)) order h) (ground arith)

-- In a consistent window of at most `reorgDepth` blocks the hash just recorded is the one that the
-- next check finds, whether the block is new or recorded again.
pub record_block_hash-recent :
    (depth b hash : ℕ) (w : HashWindow)
    → IsConsistent w
    → length w.hash_order ≤ suc depth
    → (record_block_hash (pos (suc depth)) b hash w).recent_hashes b ≡ some hash
record_block_hash-recent depth b hash w c h = rw (record_block_hash_lem depth b hash w) (
    append_new-trim depth b hash w.recent_hashes (w.recent_hashes b) w.hash_order
      (λ e i. c.tracks.kept b i e) h)
