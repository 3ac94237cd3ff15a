-- ===== src/Ranking/Calls.antt =====
-- pool.go: the RPC methods of Pool. Each picks a provider with GetProvider, calls the method of the
-- same name, and records how that went. A method of a provider changes its quota and the world.
use go_block_walk.Prelude.{Bool, true, not, Option, none, some, Text, if◌then◌else◌}
use go_block_walk.Prelude.Int.{ℤ}
use go_block_walk.Prelude.Float.{Float64}
use go_block_walk.Errors.{GoError, sentinel, no_available_provider, is_local_decode_error}
use go_block_walk.Breaker.{State}
use go_block_walk.Provider.{Provider}
use go_block_walk.Ranking.{PoolState, on_named, get_provider, record_success_of, record_failure_of}

-- The world's clock, and the state of each provider's breaker.
pub record Sight (W : Type 0) : Type 0 where
  pub clock : W → ℤ
  pub states : W → Text → State

-- A method of a provider, applied to its arguments.
abbrev pub Method : Type 0 → Type 0 → Type 0 → Type 0
Method F W A = Provider F → W → (A × Option GoError) × (Provider F × W)

abbrev with_quota_of : {F : Type 0} → Provider F → Provider F → Provider F
with_quota_of p q = record q { quota = p.quota }

module _ {F W : Type 0} (float : Float64 F) (sight : Sight W) where
  abbrev pub Outcome : Type 0 → Type 0
  Outcome A = (A × Option GoError) × (PoolState F × W)

  -- The pool after GetProvider picked `p` and a call left that provider as `p'`.
  abbrev pub after_call : Provider F → Provider F → PoolState F → PoolState F
  after_call p p' pool = record pool {
    ordered_list = on_named p.name (with_quota_of p') pool.ordered_list;
  }

  -- if err != nil { …; return zero, err }; pool.RecordSuccess(p); `charge` are the errors that are
  -- recorded as failures.
  unfoldable pub recorded :
      {A : Type 0} → A → (GoError → Bool) → Text → A × Option GoError → PoolState F × W → Outcome A
  recorded zero charge name (result, none) (pool, w) =
      ((result, none), (record_success_of float name (sight.clock w) pool, w))
  recorded zero charge name (result, some e) (pool, w) =
      ((zero, some e), (if charge e then record_failure_of float name e pool else pool, w))

  unfoldable pub with_best :
      {A : Type 0}
      → A
      → (GoError → Bool)
      → Method F W A
      → Option (Provider F) × PoolState F
      → W
      → Outcome A
  with_best zero charge method (none, pool) w =
      ((zero, some (sentinel no_available_provider)), (pool, w))
  with_best zero charge method (some p, pool) w =
      let (reply, (p', w')) = method p w in
      recorded zero charge p.name reply (after_call p p' pool, w')

  unfoldable pub through :
      {A : Type 0} → A → (GoError → Bool) → Method F W A → PoolState F → W → Outcome A
  through zero charge method pool w =
      with_best zero charge method (get_provider float (sight.states w) (sight.clock w) pool) w

  -- The same without a record of success or failure.
  unfoldable pub with_best_unrecorded :
      {A : Type 0} → A → Method F W A → Option (Provider F) × PoolState F → W → Outcome A
  with_best_unrecorded zero method (none, pool) w =
      ((zero, some (sentinel no_available_provider)), (pool, w))
  with_best_unrecorded zero method (some p, pool) w =
      let (reply, (p', w')) = method p w in (reply, (after_call p p' pool, w'))

  unfoldable pub through_unrecorded : {A : Type 0} → A → Method F W A → PoolState F → W → Outcome A
  through_unrecorded zero method pool w =
      with_best_unrecorded zero method (get_provider float (sight.states w) (sight.clock w) pool) w

  abbrev pub any_error : GoError → Bool
  any_error e = true

  abbrev pub unless_local_decode : GoError → Bool
  unless_local_decode e = not (is_local_decode_error (some e))
