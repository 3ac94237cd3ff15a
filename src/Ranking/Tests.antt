-- ===== src/Ranking/Tests.antt =====
-- A pool of two providers, the preferred one listed second in the configuration.
use go_block_walk.Prelude.{
  ℕ, suc, ◌≡◌, ◌≢◌, ◌↔◌, refl, Bool, false, none, some, List, [], ◌∷◌, Text, codes, In,
  if◌then◌else◌, arith,
}
use go_block_walk.Prelude.Int.{ℤ, pos, ◌≤ℤ◌}
use go_block_walk.Errors.{ok, plain}
use go_block_walk.Breaker.{closed, Try}
use go_block_walk.Quota.Bounds.{new_quota_manager-IsWithin}
use go_block_walk.Provider.Calls.{Client, rpc}
use go_block_walk.Provider.Charges.{ran}
use go_block_walk.Ranking.Quotas.{WithinQuotas}
use go_block_walk.Ranking.Spending.{of_client, pool-WithinQuotas}
use go_block_walk.Provider.{Provider, new_provider}
use go_block_walk.Provider.Demo.{tenths, config, dial}
use go_block_walk.Ranking.{
  PoolState, less, sort_ordered_list, get_provider, record_success_of, record_failure_of,
}
use go_block_walk.Ranking.New.{PoolConfig, build_pool, new_pool}
use go_block_walk.Ranking.Calls.{Sight, Method, through, any_error}
use go_block_walk.Ranking.Best.{StrictWeak, Outranked, Picks, get_provider-Picks}
use go_block_walk.Ranking.Building.{Named, names, new_pool-ok_iff}
use go_block_walk.Ranking.Down.{Down}
use go_block_walk.Ranking.Uses.{here, next, calls, succeeds, fails, passes}
use go_block_walk.Ranking.Stuck.{unhealthy_stays}

insert : {A : Type 0} → (A → A → Bool) → A → List A → List A
insert below x [] = x ∷ []
insert below x (y ∷ ys) = let rest = insert below x ys in if below y x then y ∷ rest else x ∷ y ∷ ys

insertion_sort : {A : Type 0} → (A → A → Bool) → List A → List A
unfolding insert
insertion_sort below [] = []
insertion_sort below (x ∷ xs) = insert below x (insertion_sort below xs)

abbrev two : PoolConfig ℤ
two = record {
  providers = config (codes "b") (pos 2) ∷ config (codes "a") (pos 1) ∷ [];
  update_interval = pos 0;
  max_log_block_range = pos 0;
  max_parallel_job_attempts = pos 0;
  range_too_large_filters = [];
  log_addresses = [];
  log_topics = [];
}

abbrev at_zero : Text → ℤ
at_zero name = pos 0

new_pool-ok_iff_example :
    (((pool : PoolState ℤ) × (new_pool tenths insertion_sort dial (λ t. t) two at_zero ≡ ok pool))
      ↔ (two.providers ≢ []) × Named (names two.providers))
    × ((pool : PoolState ℤ)
        → new_pool tenths insertion_sort dial (λ t. t) two at_zero ≡ ok pool
        → (pos 1 ≤ℤ pool.sizing.max_log_block_range) × (pos 1 ≤ℤ pool.update_interval))
new_pool-ok_iff_example = new_pool-ok_iff tenths insertion_sort dial (λ t. t) two at_zero

-- The pool before its first ranking.
abbrev unsorted : PoolState ℤ
unsorted = build_pool tenths (λ below ps. ps) dial two at_zero

tenths-StrictWeak : StrictWeak tenths.above
tenths-StrictWeak = record { asymmetric = λ x y h. ground arith; between = λ x y z h. ground arith }

swapped : {A : Type 0} {q x y : A} → In q (x ∷ y ∷ []) → In q (y ∷ x ∷ [])
swapped (In.here e) = In.there (In.here e)
swapped (In.there (In.here e)) = In.here e
swapped (In.there (In.there m)) = elim m [ ]

get_provider-Picks_example :
    Picks tenths
      (λ _. closed)
      (pos 5)
      (Outranked tenths unsorted)
      unsorted.ordered_list
      (get_provider tenths
        (λ _. closed)
        (pos 5)
        (sort_ordered_list tenths insertion_sort unsorted)).0
unfolding build_pool sort_ordered_list less new_provider insertion_sort insert
get_provider-Picks_example =
    get_provider-Picks tenths insertion_sort (λ _. closed) (pos 5) unsorted tenths-StrictWeak
      (λ w. ((refl, tt), (tt, tt))) (λ q m. swapped m) (λ q m. swapped m)

-- "a" is down; a call goes to "b", a failure of "a" and a success of "b" are recorded, and then time
-- passes.
abbrev a_down : PoolState ℤ
a_down = record unsorted {
  ordered_list =
      record (new_provider tenths dial (config (codes "a") (pos 1)) (pos 0)) { healthy = false }
      ∷ new_provider tenths dial (config (codes "b") (pos 2)) (pos 0)
      ∷ [];
}

abbrev sight : Sight ℕ
sight = record { clock = λ w. pos w; states = λ w name. closed }

abbrev answers : Method ℤ ℕ ℕ
answers p w = ((42, none), (p, suc w))

unhealthy_stays_example :
    let (called, w') = (through tenths sight 0 (any_error tenths sight) answers a_down 3).1 in
    let pool' =
      record_success_of tenths
        (codes "b")
        (sight.clock w')
        (record_failure_of tenths (codes "a") (plain []) called) in
    Down (codes "a") pool'.ordered_list
    × ((p : Provider ℤ)
        → (get_provider tenths (sight.states 9) (sight.clock 9) pool').0 ≡ some p
        → p.name ≢ codes "a")
unfolding new_provider
unhealthy_stays_example =
    unhealthy_stays tenths sight (λ A m. Unit) (λ c. Unit) (codes "a")
      (λ e. refl, (λ e. absurd (ground arith), tt))
      (next
        (next
          (next (next here (calls 0 (any_error tenths sight) answers tt))
            (fails (codes "a") (plain [])))
          (succeeds (codes "b") (λ e. absurd (ground arith))))
        (passes 9))

-- A call over a client that answers, and then time passes.
abbrev no_wait : Try ℕ
no_wait w = (none, w)

abbrev run_request : (S : Type 0) → Try (S × ℕ) → Try (S × ℕ)
run_request S request s = request s

abbrev answering : Client ℕ ℕ
answering t w = ((42, none), suc w)

abbrev numbered : Method ℤ ℕ ℕ
numbered p w =
    rpc tenths sight.clock (λ _. pos 0) no_wait run_request (λ _. no_wait) 0 p answering w

abbrev fresh_pool : PoolState ℤ
fresh_pool = record unsorted {
  ordered_list =
      new_provider tenths dial (config (codes "a") (pos 1)) (pos 0)
      ∷ new_provider tenths dial (config (codes "b") (pos 2)) (pos 0)
      ∷ [];
}

pool-WithinQuotas_example :
    WithinQuotas
      (through tenths sight 0 (any_error tenths sight) numbered fresh_pool 3).1.0.ordered_list
unfolding new_provider
pool-WithinQuotas_example =
    pool-WithinQuotas tenths sight (λ _. pos 0) no_wait run_request (λ _. no_wait)
      (λ S request s w. ran w (request (s, w)).1.1 refl refl)
      (new_quota_manager-IsWithin _ _, (new_quota_manager-IsWithin _ _, tt))
      (next (next here (calls 0 (any_error tenths sight) numbered (of_client 0 answering)))
        (passes 9))
