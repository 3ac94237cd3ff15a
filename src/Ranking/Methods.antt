-- ===== src/Ranking/Methods.antt =====
-- pool.go: the methods of Pool by their names, each over the method of that name of a provider.
use go_block_walk.Prelude.{ℕ, Bool, false, Option, none, List, []}
use go_block_walk.Prelude.Int.{ℤ}
use go_block_walk.Prelude.Float.{Float64}
use go_block_walk.Dispatcher.{Log}
use go_block_walk.Ranking.{PoolState, FilterQuery, log_filter_query}
use go_block_walk.Ranking.Calls.{
  Sight, Method, Outcome, through, through_unrecorded, any_error, unless_local_decode,
}

module _ {F W : Type 0} (float : Float64 F) (sight : Sight W) where
  unfoldable pub block_by_number :
      {Block : Type 0}
      → (ℕ → Method F W (Option Block))
      → ℕ
      → PoolState F
      → W
      → Outcome float sight (Option Block)
  block_by_number method n = through float sight none (unless_local_decode float sight) (method n)

  unfoldable pub block_by_hash :
      {Hash Block : Type 0}
      → (Hash → Method F W (Option Block))
      → Hash
      → PoolState F
      → W
      → Outcome float sight (Option Block)
  block_by_hash method hash = through float sight none (any_error float sight) (method hash)

  unfoldable pub transaction_by_hash :
      {Hash Transaction : Type 0}
      → (Hash → Method F W (Option Transaction × Bool))
      → Hash
      → PoolState F
      → W
      → Outcome float sight (Option Transaction × Bool)
  transaction_by_hash method hash =
      through float sight (none, false) (any_error float sight) (method hash)

  unfoldable pub transaction_receipt :
      {Hash Receipt : Type 0}
      → (Hash → Method F W (Option Receipt))
      → Hash
      → PoolState F
      → W
      → Outcome float sight (Option Receipt)
  transaction_receipt method hash = through float sight none (any_error float sight) (method hash)

  unfoldable pub filter_logs :
      (FilterQuery → Method F W (List Log))
      → FilterQuery
      → PoolState F
      → W
      → Outcome float sight (List Log)
  filter_logs method q = through float sight [] (any_error float sight) (method q)

  unfoldable pub logs_by_block_number :
      (FilterQuery → Method F W (List Log)) → ℕ → PoolState F → W → Outcome float sight (List Log)
  unfolding filter_logs
  logs_by_block_number method n pool w = filter_logs method (log_filter_query pool n n) pool w

  unfoldable pub logs_by_block_range :
      (FilterQuery → Method F W (List Log))
      → ℕ
      → ℕ
      → PoolState F
      → W
      → Outcome float sight (List Log)
  unfolding filter_logs
  logs_by_block_range method from to pool w =
      filter_logs method (log_filter_query pool from to) pool w

  unfoldable pub subscribe_new_head :
      {Subscription : Type 0}
      → Method F W (Option Subscription)
      → PoolState F
      → W
      → Outcome float sight (Option Subscription)
  subscribe_new_head method = through_unrecorded float sight none method

  unfoldable pub header_by_number :
      {Header : Type 0}
      → (Option ℤ → Method F W (Option Header))
      → Option ℤ
      → PoolState F
      → W
      → Outcome float sight (Option Header)
  header_by_number method number = through float sight none (any_error float sight) (method number)

  unfoldable pub block_number : Method F W ℕ → PoolState F → W → Outcome float sight ℕ
  block_number method = through float sight 0 (any_error float sight) method

  unfoldable pub balance_at :
      {Address : Type 0}
      → (Address → Method F W (Option ℤ))
      → Address
      → PoolState F
      → W
      → Outcome float sight (Option ℤ)
  balance_at method address = through float sight none (any_error float sight) (method address)

  unfoldable pub code_at :
      {Address : Type 0}
      → (Address → Method F W (List ℕ))
      → Address
      → PoolState F
      → W
      → Outcome float sight (List ℕ)
  code_at method address = through_unrecorded float sight [] (method address)
