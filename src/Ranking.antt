-- ===== src/Ranking.antt =====
-- pool.go: Pool, how it ranks its providers and which one it picks. The map and the ordered list of
-- the source hold the same providers, whose names are different: one list stands for both. A loop
-- over the providers reads the clock and the breakers once.
pub mod New
pub mod Calls
pub mod Methods
pub mod Best
pub mod Down
pub mod Rounds
pub mod Uses
pub mod Quotas
pub mod Spending
pub mod Stuck
pub mod Building
mod Tests
use go_block_walk.Prelude.{
  ℕ, Bool, true, false, not, ◌&&◌, Option, none, some, List, [], ◌∷◌, ◌++◌, map, Text, codes,
  if◌then◌else◌,
}
use go_block_walk.Prelude.Int.{ℤ, pos, ltb_ℤ, leb_ℤ, eqb_ℤ}
use go_block_walk.Prelude.Float.{Float64}
use go_block_walk.Prelude.Strings.{text_eq}
use go_block_walk.Errors.{GoError, plain, quota_exceeded, wrap, errors_is, Result, ok, err}
use go_block_walk.Breaker.{State, Try}
use go_block_walk.Pool.{Pool}
use go_block_walk.Provider.{
  DialFunc, ProviderConfig, Provider, new_provider, is_available, record_success, record_failure,
  get_quota_usage, get_quota_reset,
}
use go_block_walk.Provider

-- The state of a Pool; `sizing` holds the fields that the sizing of fetches reads, and `closed` is
-- whether `closeOnce` has run.
pub record PoolState (F : Type 0) : Type 0 where
  pub ordered_list : List (Provider F)
  pub penalties : Text → F
  pub update_interval : ℤ
  pub sizing : Pool
  pub log_addresses : List ℕ
  pub log_topics : List (List ℕ)
  pub closed : Bool

-- ethereum.FilterQuery
pub record FilterQuery : Type 0 where
  pub from_block : ℕ
  pub to_block : ℕ
  pub addresses : List ℕ
  pub topics : List (List ℕ)

unfoldable pub log_filter_query : {F : Type 0} → PoolState F → ℕ → ℕ → FilterQuery
log_filter_query pool from to = record {
  from_block = from;
  to_block = to;
  addresses = pool.log_addresses;
  topics = pool.log_topics;
}

-- pool.penalties[name] = penalty
abbrev pub set_penalty : {F : Type 0} → (Text → F) → Text → F → Text → F
set_penalty penalties name penalty n = if text_eq n name then penalty else penalties n

-- What the methods of the provider of that name change.
unfoldable pub on_named :
    {F : Type 0} → Text → (Provider F → Provider F) → List (Provider F) → List (Provider F)
on_named name f [] = []
on_named name f (p ∷ ps) = (if text_eq p.name name then f p else p) ∷ on_named name f ps

-- sort.Slice
abbrev pub Sort : Type 0 → Type 0
Sort A = (A → A → Bool) → List A → List A

module _ {F : Type 0} (float : Float64 F) where
  unfoldable pub adjusted_score : PoolState F → Provider F → F
  adjusted_score pool p = float.minus p.current_score (pool.penalties p.name)

  -- The order that sortOrderedListLocked gives to sort.Slice.
  unfoldable pub less : PoolState F → Provider F → Provider F → Bool
  unfolding adjusted_score
  less pool a b =
      if eqb_ℤ a.priority b.priority
      then float.above (adjusted_score pool a) (adjusted_score pool b)
      else ltb_ℤ a.priority b.priority

  unfoldable pub sort_ordered_list : Sort (Provider F) → PoolState F → PoolState F
  sort_ordered_list sort pool = record pool { ordered_list = sort (less pool) pool.ordered_list }

  -- limit > 0 && used >= limit
  abbrev full : ℤ → ℤ → Bool
  full limit used = ltb_ℤ (pos 0) limit && leb_ℤ limit used

  unfoldable pub penalty_of : Provider F → F
  penalty_of p =
      let (limit, used, credits_limit, credits_used) = get_quota_usage float p in
      let start = float.from_int (pos 0) in
      let requests =
        if full limit used then float.plus start (float.from_int (pos 10)) else start in
      if full credits_limit credits_used
      then float.plus requests (float.from_int (pos 5))
      else requests

  unfoldable pub all_penalties : List (Provider F) → (Text → F) → Text → F
  all_penalties [] penalties = penalties
  all_penalties (p ∷ ps) penalties = all_penalties ps (set_penalty penalties p.name (penalty_of p))

  unfoldable pub recalculate_scores : Sort (Provider F) → PoolState F → PoolState F
  recalculate_scores sort pool =
      sort_ordered_list sort
        (record pool { penalties = all_penalties pool.ordered_list pool.penalties })

  -- The first provider of the list that is available, and the list after the calls of IsAvailable.
  unfoldable pub first_available :
      (Text → State) → ℤ → List (Provider F) → Option (Provider F) × List (Provider F)
  first_available states now [] = (none, [])
  first_available states now (p ∷ ps) =
      let (yes_now, p') = is_available float (states p.name) now p in
      let (found, ps') = first_available states now ps in
      if yes_now then (some p', p' ∷ ps) else (found, p' ∷ ps')

  unfoldable pub get_provider : (Text → State) → ℤ → PoolState F → Option (Provider F) × PoolState F
  get_provider states now pool =
      let (found, ps) = first_available states now pool.ordered_list in
      (found, record pool { ordered_list = ps })

  unfoldable pub get_all_providers : PoolState F → List (Provider F)
  get_all_providers pool = pool.ordered_list

  abbrev keep : Bool → Provider F → List (Provider F) → List (Provider F)
  keep true p ps = p ∷ ps
  keep false p ps = ps

  unfoldable pub available_providers_snapshot :
      (Text → State) → ℤ → List (Provider F) → List (Provider F) × List (Provider F)
  available_providers_snapshot states now [] = ([], [])
  available_providers_snapshot states now (p ∷ ps) =
      let (yes_now, p') = is_available float (states p.name) now p in
      let (out, ps') = available_providers_snapshot states now ps in (keep yes_now p' out, p' ∷ ps')

  unfoldable pub record_success_of : Text → ℤ → PoolState F → PoolState F
  record_success_of name now pool = record pool {
    ordered_list = on_named name (record_success float now) pool.ordered_list;
  }

  unfoldable pub record_failure_of : Text → GoError → PoolState F → PoolState F
  record_failure_of name e pool =
      if errors_is e quota_exceeded
      then pool
      else record pool { ordered_list = on_named name (record_failure float) pool.ordered_list }

  abbrev own_or : Pool → Option (Provider F) → ℤ
  own_or sizing none = sizing.max_log_block_range
  own_or sizing (some p) =
      if ltb_ℤ (pos 0) p.max_log_block_range
      then p.max_log_block_range
      else sizing.max_log_block_range

  unfoldable pub max_log_block_range : (Text → State) → ℤ → PoolState F → ℤ × PoolState F
  max_log_block_range states now pool =
      let (found, pool') = get_provider states now pool in (own_or pool.sizing found, pool')

  scores_of : PoolState F → List (Provider F) → Text → Option F
  scores_of pool [] name = none
  scores_of pool (p ∷ ps) name =
      let rest = scores_of pool ps name in
      if text_eq p.name name then some (adjusted_score pool p) else rest

  -- The map as a function into `Option`.
  unfoldable pub get_scores : PoolState F → Text → Option F
  unfolding scores_of
  get_scores pool name = scores_of pool pool.ordered_list name

  -- The loop of PersistQuotaUsage, over the providers in the order of the map's iteration:
  -- `set_quota_usage name used reset` stores the usage of requests.
  unfoldable pub persist_quota_usage :
      {W : Type 0} → (Text → ℤ → ℤ → Try W) → List (Provider F) → Try W
  persist_quota_usage set_quota_usage [] w = (none, w)
  persist_quota_usage set_quota_usage (p ∷ ps) w =
      let (_, used, _, _) = get_quota_usage float p in
      let (e, w') = set_quota_usage p.name used (get_quota_reset float p).0 w in
      let (later, w'') = persist_quota_usage set_quota_usage ps w' in
      elim e [
        | some x ↦ (some (wrap (codes "persist quota for " ++ (p.name ++ codes ": ")) x), w')
        | none ↦ (later, w'')
      ]

  close_each : {W : Type 0} → (Text → W → W) → List (Provider F) → W → List (Provider F) × W
  close_each close_client [] w = ([], w)
  close_each close_client (p ∷ ps) w =
      let (p', w') = go_block_walk.Provider.close float (close_client p.name) p w in
      let (ps', w'') = close_each close_client ps w' in (p' ∷ ps', w'')

  -- Close, once the update loop has ended.
  unfoldable pub close_pool : {W : Type 0} → (Text → W → W) → PoolState F → W → PoolState F × W
  unfolding close_each
  close_pool close_client pool w =
      let (ps, w') = close_each close_client pool.ordered_list w in
      if pool.closed then (pool, w) else (record pool { ordered_list = ps; closed = true }, w')
