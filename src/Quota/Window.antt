-- ===== src/Quota/Window.antt =====
-- What the quota manager of provider.go admits within one period.
use go_block_walk.Prelude.{
  ℕ, ◌+◌, ◌≡◌, true, false, none, length, List, [], ◌∷◌, ◌++◌, arith, ◌⊎◌, inl, refl, sym, All,
}
use go_block_walk.Prelude.Int.{ℤ, pos, ◌+ℤ◌, ◌≤ℤ◌, +ℤ_parts, +ℤ_zero, +ℤ_pos, eq_of_parts}
use go_block_walk.Quota.{QuotaManager, rollover_locked, remaining, consume, consume_all, tally}

pub consume_all-append :
    (qm : QuotaManager) (xs ys : List ℤ)
    → let (m, mid) = consume_all qm xs in
      let (n, last) = consume_all mid ys in
      ((consume_all qm (xs ++ ys)).0 ≡ m + n) × ((consume_all qm (xs ++ ys)).1 ≡ last)
unfolding consume_all
consume_all-append qm [] ys = (omega arith, refl)
consume_all-append qm (now ∷ xs) ys =
    let (granted, qm') = consume qm now in
    let ih = consume_all-append (consume qm now).1 xs ys in (omega (arith, ih.0), ih.1)

-- `Remaining` says yes exactly when `Consume` at the same instant reserves a request.
pub consume-remaining : (qm : QuotaManager) (now : ℤ) → (consume qm now).0 ≡ (remaining qm now).0
unfolding consume remaining
consume-remaining qm now = ground arith

-- The manager after some calls that were granted `n` times, all before the window's end.
pub record Charged (qm : QuotaManager) (n : ℕ) (qm' : QuotaManager) : Type 0 where
  pub limit : qm'.limit ≡ qm.limit
  pub reset : qm'.reset_time ≡ qm.reset_time
  pub counted : qm'.used ≡ qm.used +ℤ pos n
  pub bounded : qm'.used ≤ℤ qm.limit

-- Before the end of the window a rollover leaves the request counter alone.
rollover_early :
    (qm : QuotaManager) (now : ℤ)
    → now ≤ℤ qm.reset_time
    → let rolled = rollover_locked qm now in
      (rolled.used ≡ qm.used) × (rolled.reset_time ≡ qm.reset_time) × (rolled.limit ≡ qm.limit)
unfolding rollover_locked
rollover_early qm now early = ground arith

consume_lem :
    (qm : QuotaManager) (now : ℤ)
    → let rolled = rollover_locked qm now in
      let qm' = (consume qm now).1 in
      (qm'.limit ≡ rolled.limit)
      × (qm'.reset_time ≡ rolled.reset_time)
      × (((consume qm now).0 ≡ true)
            × (qm'.used ≡ rolled.used +ℤ pos 1)
            × (pos 1 ≤ℤ rolled.limit → rolled.used +ℤ pos 1 ≤ℤ rolled.limit)
          ⊎ (((consume qm now).0 ≡ false) × (qm'.used ≡ rolled.used)))
unfolding consume
consume_lem qm now =
    let r = rollover_locked qm now in ground (arith, +ℤ_parts (rollover_locked qm now).used (pos 1))

Charged-consume :
    (qm : QuotaManager) (now : ℤ)
    → pos 1 ≤ℤ qm.limit
    → qm.used ≤ℤ qm.limit
    → now ≤ℤ qm.reset_time
    → Charged qm (tally (consume qm now).0) (consume qm now).1
Charged-consume qm now positive below early =
    ground (arith, rollover_early qm now early, consume_lem qm now, +ℤ_zero qm.used)

Charged-trans :
    {qm qm' last : QuotaManager} {m n : ℕ}
    → Charged qm m qm'
    → Charged qm' n last
    → Charged qm (m + n) last
Charged-trans {qm} {m} {n} a b = record {
  limit = ground arith;
  reset = ground arith;
  counted = ground (arith, +ℤ_pos qm.used m n);
  bounded = ground arith;
}

consume_all-Charged :
    (qm : QuotaManager) (times : List ℤ)
    → pos 1 ≤ℤ qm.limit
    → qm.used ≤ℤ qm.limit
    → All (λ now. now ≤ℤ qm.reset_time) times
    → Charged qm (consume_all qm times).0 (consume_all qm times).1
unfolding consume_all
consume_all-Charged qm [] positive below early = record {
  limit = refl;
  reset = refl;
  counted = sym (+ℤ_zero qm.used);
  bounded = below;
}
consume_all-Charged qm (now ∷ later) positive below early =
    let c = Charged-consume qm now positive below early.0 in
    Charged-trans c (
      consume_all-Charged (consume qm now).1 later (rw c.limit positive) (rw c.limit c.bounded)
        (rw c.reset early.1))

-- Within one window of a limited provider (limit at least 1, counter within it), however many calls
-- come, the requests granted and those already counted never exceed the limit, the counter has grown
-- by exactly the number granted, and the window is the same.
pub consume_all-le-limit :
    (qm : QuotaManager) (times : List ℤ)
    → pos 1 ≤ℤ qm.limit
    → qm.used ≤ℤ qm.limit
    → All (λ now. now ≤ℤ qm.reset_time) times
    → let (granted, qm') = consume_all qm times in
      (qm.used +ℤ pos granted ≤ℤ qm.limit)
      × (qm'.used ≡ qm.used +ℤ pos granted)
      × (qm'.reset_time ≡ qm.reset_time)
consume_all-le-limit qm times positive below early =
    let c = consume_all-Charged qm times positive below early in ground arith

consume-no_credits :
    (qm : QuotaManager) (now : ℤ)
    → qm.credits ≡ none
    → now ≤ℤ qm.reset_time
    → ((consume qm now).1.credits ≡ none)
      × (((consume qm now).0 ≡ true)
          ⊎ ((qm.limit ≤ℤ qm.used) × ((consume qm now).1.used ≡ qm.used)))
unfolding consume rollover_locked
consume-no_credits qm now plain early = ground arith

-- Nothing is refused early: without credits, either every call in the window was granted or the
-- counter has reached the limit.
pub consume_all_exact :
    (qm : QuotaManager) (times : List ℤ)
    → qm.credits ≡ none
    → pos 1 ≤ℤ qm.limit
    → qm.used ≤ℤ qm.limit
    → All (λ now. now ≤ℤ qm.reset_time) times
    → let (granted, qm') = consume_all qm times in (granted ≡ length times) ⊎ (qm'.used ≡ qm.limit)
unfolding consume_all
consume_all_exact qm [] plain positive below early = inl refl
consume_all_exact qm (now ∷ later) plain positive below early =
    let c = Charged-consume qm now positive below early.0 in
    let qm' = (consume qm now).1 in
    let all =
      consume_all-Charged qm' later (rw c.limit positive) (rw c.limit c.bounded)
        (rw c.reset early.1) in
    ground (
      arith,
      consume-no_credits qm now plain early.0,
      consume_all_exact qm' later (consume-no_credits qm now plain early.0).0 (rw c.limit positive)
          (rw c.limit c.bounded) (rw c.reset early.1),
      +ℤ_parts qm'.used (pos (consume_all qm' later).0),
      eq_of_parts (consume_all qm' later).1.used qm.limit,
    )
