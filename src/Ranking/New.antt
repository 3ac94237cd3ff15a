-- ===== src/Ranking/New.antt =====
-- pool.go: NewPool; PoolConfig of config.go.
use go_block_walk.Prelude.{
  ℕ, Bool, true, false, Option, none, some, List, [], ◌∷◌, ◌++◌, map, Text, codes, if◌then◌else◌,
}
use go_block_walk.Prelude.Int.{ℤ, pos, leb_ℤ}
use go_block_walk.Prelude.Float.{Float64}
use go_block_walk.Prelude.Strings.{text_eq}
use go_block_walk.Errors.{GoError, plain, Result, ok, err}
use go_block_walk.Provider.{DialFunc, ProviderConfig, Provider, new_provider}
use go_block_walk.Ranking.{PoolState, Sort, sort_ordered_list}

-- An address and a topic are the numbers that their bytes spell.
pub record PoolConfig (F : Type 0) : Type 0 where
  pub providers : List (ProviderConfig F)
  pub update_interval : ℤ
  pub max_log_block_range : ℤ
  pub max_parallel_job_attempts : ℤ
  pub range_too_large_filters : List Text
  pub log_addresses : List ℕ
  pub log_topics : List (List ℕ)

abbrev pub mark : (Text → Bool) → Text → Text → Bool
mark seen name n = if text_eq n name then true else seen n

-- The check of the names: `quote` is `%q`.
unfoldable pub check_names :
    {F : Type 0} → (Text → Text) → (Text → Bool) → List (ProviderConfig F) → Option GoError
check_names quote seen [] = none
check_names quote seen (pc ∷ rest) =
    let later = check_names quote (mark seen pc.name) rest in
    if text_eq pc.name []
    then some (plain (codes "idx: provider name is required"))
    else if seen pc.name
    then some (plain (codes "idx: duplicate provider name " ++ quote pc.name))
    else later

module _ {F : Type 0} (float : Float64 F) where
  abbrev or_if_not_positive : ℤ → ℤ → ℤ
  or_if_not_positive n default = if leb_ℤ n (pos 0) then default else n

  -- The pool that NewPool builds once the names are checked; `now` is the clock when a provider is
  -- dialled.
  unfoldable pub build_pool : Sort (Provider F) → DialFunc → PoolConfig F → (Text → ℤ) → PoolState F
  build_pool sort dial cfg now = sort_ordered_list float sort (record {
    ordered_list = map (λ pc. new_provider float dial pc (now pc.name)) cfg.providers;
    penalties = λ _. float.from_int (pos 0);
    update_interval = or_if_not_positive cfg.update_interval (pos 30000000000);
    sizing = record {
      max_log_block_range = or_if_not_positive cfg.max_log_block_range (pos 1);
      max_parallel_job_attempts = cfg.max_parallel_job_attempts;
      range_too_large_filters = cfg.range_too_large_filters;
    };
    log_addresses = cfg.log_addresses;
    log_topics = cfg.log_topics;
    closed = false;
  })

  abbrev pub unless_refused : Option GoError → PoolState F → Result (PoolState F)
  unless_refused none pool = ok pool
  unless_refused (some e) pool = err e

  abbrev pub no_provider_error : GoError
  no_provider_error = plain (codes "idx: pool requires at least one provider")

  abbrev pub refusal : (Text → Text) → List (ProviderConfig F) → Option GoError
  refusal quote [] = some no_provider_error
  refusal quote (pc ∷ rest) = check_names quote (λ _. false) (pc ∷ rest)

  unfoldable pub new_pool :
      Sort (Provider F)
      → DialFunc
      → (Text → Text)
      → PoolConfig F
      → (Text → ℤ)
      → Result (PoolState F)
  new_pool sort dial quote cfg now =
      unless_refused (refusal quote cfg.providers) (build_pool sort dial cfg now)
