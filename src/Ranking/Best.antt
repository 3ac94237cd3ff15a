-- ===== src/Ranking/Best.antt =====
-- Which provider GetProvider of pool.go picks, after sort.Slice has ordered them.
use go_block_walk.Prelude.{
  ◌≡◌, refl, sym, subst, Bool, true, false, Bool-cases, Option, none, some, List, [], ◌∷◌, Text, In,
  All, All-In, In-cons, arith, ◌⊎◌, inl, inr,
}
use go_block_walk.Prelude.Int.{ℤ, ◌≤ℤ◌}
use go_block_walk.Prelude.Float.{Float64}
use go_block_walk.Breaker.{State}
use go_block_walk.Provider.{Provider, is_available}
use go_block_walk.Ranking.{
  PoolState, Sort, adjusted_score, less, first_available, get_provider, sort_ordered_list,
}

-- What sort.Slice asks of its order: a strict weak order.
pub record StrictWeak {A : Type 0} (below : A → A → Bool) : Type 0 where
  pub asymmetric : (x y : A) → below x y ≡ true → below y x ≡ false
  pub between : (x y z : A) → below x z ≡ true → (below x y ≡ true) ⊎ (below y z ≡ true)

-- No entry is below one that comes before it.
abbrev pub Ordered : {A : Type 0} → (A → A → Bool) → List A → Type 0
Ordered below [] = Unit
Ordered below (x ∷ xs) = All (λ y. below y x ≡ false) xs × Ordered below xs

module _ {F : Type 0} (float : Float64 F) where
  pub less-StrictWeak : (pool : PoolState F) → StrictWeak float.above → StrictWeak (less float pool)
  unfolding less
  less-StrictWeak pool weak = record {
    asymmetric = λ a b h.
        ground (arith, weak.asymmetric (adjusted_score float pool a) (adjusted_score float pool b));
    between = λ a b c h. ground (
      arith,
      weak.between (adjusted_score float pool a) (adjusted_score float pool b)
          (adjusted_score float pool c),
    );
  }

  abbrev Available : (Text → State) → ℤ → Provider F → Type 0
  Available states now p = (is_available float (states p.name) now p).0 ≡ true

  -- What GetProvider returns of the providers `ps`: nothing, when none is available; or one that is,
  -- and to which no available one is preferred.
  pub data Picks (states : Text → State) (now : ℤ) (Yields : Provider F → Provider F → Type 0)
      (ps : List (Provider F)) : Option (Provider F) → Type 0 where
    nothing :
        ((q : Provider F) → In q ps → (is_available float (states q.name) now q).0 ≡ false)
        → Picks states now Yields ps none
    best :
        (p : Provider F)
        → In p ps
        → (is_available float (states p.name) now p).0 ≡ true
        → ((q : Provider F)
            → In q ps
            → (is_available float (states q.name) now q).0 ≡ true
            → Yields q p)
        → Picks states now Yields ps (some (is_available float (states p.name) now p).1)

  module _ (states : Text → State) (now : ℤ) (preferred : Provider F → Provider F → Bool)
      (weak : StrictWeak preferred) where
    abbrev Yields : Provider F → Provider F → Type 0
    Yields q p = preferred q p ≡ false

    irreflexive : (x : Provider F) → preferred x x ≡ false
    irreflexive x = ground (arith, weak.asymmetric x x)

    Picks-cons :
        (x : Provider F) (ps : List (Provider F)) (found : Option (Provider F))
        → (is_available float (states x.name) now x).0 ≡ false
        → Picks states now Yields ps found
        → Picks states now Yields (x ∷ ps) found
    Picks-cons x ps found off (nothing all) = nothing (λ q m. elim (In-cons m) [
      | inl e ↦ subst (λ q. (is_available float (states q.name) now q).0 ≡ false) (sym e) off
      | inr later ↦ all q later
    ])
    Picks-cons x ps found off (best p m on all) = best p (In.there m) on (λ q n here.
        elim (In-cons n) [
          | inl e ↦
              let on_x : (is_available float (states x.name) now x).0 ≡ true =
                subst (λ q. (is_available float (states q.name) now q).0 ≡ true) e here in
              absurd (cc)
          | inr later ↦ all q later here
        ])

    first_available-Picks :
        (ps : List (Provider F))
        → Ordered preferred ps
        → Picks states now Yields ps (first_available float states now ps).0
    unfolding first_available
    first_available-Picks [] o = nothing (λ q m. elim m [ ])
    first_available-Picks (x ∷ ps) o =
        elim (Bool-cases (is_available float (states x.name) now x).0) [
          | inl on ↦ rw on (
              best x (In.here refl) on (λ q m _. elim (In-cons m) [
                | inl e ↦ subst (λ q. preferred q x ≡ false) (sym e) (irreflexive x)
                | inr later ↦ All-In (λ q. preferred q x ≡ false) ps o.0 later
              ]))
          | inr off ↦ rw off (Picks-cons x ps _ off (first_available-Picks ps o.1))
        ]

    Picks-same :
        (ps qs : List (Provider F)) (found : Option (Provider F))
        → ((q : Provider F) → In q ps → In q qs)
        → ((q : Provider F) → In q qs → In q ps)
        → Picks states now Yields ps found
        → Picks states now Yields qs found
    Picks-same ps qs found from to (nothing all) = nothing (λ q m. all q (to q m))
    Picks-same ps qs found from to (best p m on all) =
        best p (from p m) on (λ q n here. all q (to q n) here)

  -- An available provider `q` yields to the one that is picked: its priority number is not lower,
  -- and if it is the same, its adjusted score is not higher.
  abbrev pub Outranked : PoolState F → Provider F → Provider F → Type 0
  Outranked pool q p =
      (p.priority ≤ℤ q.priority)
      × (p.priority ≡ q.priority
          → float.above (adjusted_score float pool q) (adjusted_score float pool p) ≡ false)

  Outranked-less :
      (pool : PoolState F) (q p : Provider F) → less float pool q p ≡ false → Outranked pool q p
  unfolding less
  Outranked-less pool q p h = ground arith

  Picks-map :
      (states : Text → State) (now : ℤ) (R S : Provider F → Provider F → Type 0)
      (ps : List (Provider F)) (found : Option (Provider F))
      → ((q p : Provider F) → R q p → S q p)
      → Picks states now R ps found
      → Picks states now S ps found
  Picks-map states now R S ps found f (nothing all) = nothing all
  Picks-map states now R S ps found f (best p m on all) =
      best p m on (λ q n here. f q p (all q n here))

  -- After the pool has been sorted, GetProvider returns an available provider to which no available
  -- one has a lower priority number, or the same one and a higher adjusted score, and none only
  -- if no provider is available. The comparison of scores is a strict weak order, and sort.Slice,
  -- given a strict weak order, returns the same entries with none below one that comes before it.
  pub get_provider-Picks :
      (sort : Sort (Provider F)) (states : Text → State) (now : ℤ) (pool : PoolState F)
      → StrictWeak float.above
      → (StrictWeak (less float pool)
          → Ordered (less float pool) (sort (less float pool) pool.ordered_list))
      → ((q : Provider F)
          → In q (sort (less float pool) pool.ordered_list)
          → In q pool.ordered_list)
      → ((q : Provider F)
          → In q pool.ordered_list
          → In q (sort (less float pool) pool.ordered_list))
      → Picks states now
          (Outranked pool)
          pool.ordered_list
          (get_provider float states now (sort_ordered_list float sort pool)).0
  unfolding get_provider sort_ordered_list
  get_provider-Picks sort states now pool weak sorts fewer more =
      let w = less-StrictWeak pool weak in
      Picks-map states now _ (Outranked pool) pool.ordered_list _ (Outranked-less pool) (
        Picks-same states now (less float pool) w (sort (less float pool) pool.ordered_list)
          pool.ordered_list _ fewer more
          (first_available-Picks states now (less float pool) w
            (sort (less float pool) pool.ordered_list) (sorts w)))
