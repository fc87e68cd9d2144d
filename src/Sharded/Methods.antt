-- ===== src/Sharded/Methods.antt =====
-- sharded_client.go: the methods of the sharded client, over the methods of its shards.
use fq_client_go.Common.{ℕ, Bool, Option, none, some, List, Bytes}
use fq_client_go.Errors.{Result}
use fq_client_go.Net.{Ctx}
use fq_client_go.Types.{
  CappingKey, LimitKey, RateLimitResult, QuotaAcquireResult, QuotaInfo, ScanResult,
}
use fq_client_go.Pool.{Target, World}
use fq_client_go.Client.{Call}
use fq_client_go.Client
use fq_client_go.Sharded.{
  ShardingFunc, Command, on_shard_by_key, bool_command_on_all_shards, inspect_all,
}
use fq_client_go.Sharded.MDel.{mdel_by_shard}
use fq_client_go.Sharded.Cursor.{scan}

-- A shard is a client, which is its target and its pool.
pub record Shard : Type 0 where
  pub target : Target
  pub world : World

unfoldable pub kept : {A : Type 0} → Target → Option (Result A × World) → Option (Result A × Shard)
kept target none = none
kept target (some (r, w)) = some (r, record { target = target; world = w })

unfoldable pub call : {A : Type 0} → (Target → Call A) → Command Shard A
unfolding kept
call method shard = kept shard.target (method shard.target shard.world)

-- A `ShardedClient` has its sharding function and its shards.
module _ (sharding_func : ShardingFunc) (ctx : Ctx) where
  unfoldable pub by_key : {A : Type 0} → Bytes → (Target → Call A) → Command (List Shard) A
  unfolding call on_shard_by_key
  by_key key method = on_shard_by_key sharding_func key (call method)

  unfoldable pub incr : CappingKey → Command (List Shard) ℕ
  unfolding by_key
  incr key = by_key key.key (λ t. Client.incr t ctx key)

  unfoldable pub get : CappingKey → Command (List Shard) ℕ
  unfolding by_key
  get key = by_key key.key (λ t. Client.get t ctx key)

  unfoldable pub watch : CappingKey → Command (List Shard) ℕ
  unfolding by_key
  watch key = by_key key.key (λ t. Client.watch t ctx key)

  unfoldable pub del : CappingKey → Command (List Shard) Bool
  unfolding by_key
  del key = by_key key.key (λ t. Client.del t ctx key)

  -- `MDel`, for the order in which the map of its groups is ranged over.
  unfoldable pub mdel : List ℕ → List CappingKey → Command (List Shard) (List Bool)
  unfolding call mdel_by_shard
  mdel order keys = mdel_by_shard sharding_func (λ ks. call (λ t. Client.mdel t ctx ks)) order keys

  unfoldable pub rlimit_fixed_window : LimitKey → ℕ → Command (List Shard) RateLimitResult
  unfolding by_key
  rlimit_fixed_window key limit = by_key key.key (λ t. Client.rlimit_fixed_window t ctx key limit)

  unfoldable pub rlimit_sliding_window : LimitKey → ℕ → Command (List Shard) RateLimitResult
  unfolding by_key
  rlimit_sliding_window key limit =
      by_key key.key (λ t. Client.rlimit_sliding_window t ctx key limit)

  unfoldable pub rlimit_token_bucket : LimitKey → ℕ → ℕ → Command (List Shard) RateLimitResult
  unfolding by_key
  rlimit_token_bucket key capacity refill_amount =
      by_key key.key (λ t. Client.rlimit_token_bucket t ctx key capacity refill_amount)

  unfoldable pub quota_acquire :
      Bytes → ℕ → Bytes → List ℕ → Command (List Shard) QuotaAcquireResult
  unfolding by_key
  quota_acquire name amount client_id ttl =
      by_key name (λ t. Client.quota_acquire t ctx name amount client_id ttl)

  unfoldable pub quota_acquire_lease :
      Bytes → ℕ → ℕ → Bytes → List ℕ → Command (List Shard) QuotaAcquireResult
  unfolding by_key
  quota_acquire_lease name limit amount client_id ttl =
      by_key name (λ t. Client.quota_acquire_lease t ctx name limit amount client_id ttl)

  unfoldable pub quota_acquire_n : Bytes → Bytes → List ℕ → Command (List Shard) QuotaAcquireResult
  unfolding by_key
  quota_acquire_n name client_id ttl =
      by_key name (λ t. Client.quota_acquire_n t ctx name client_id ttl)

  unfoldable pub quota_set : Bytes → ℕ → Command (List Shard) Bool
  unfolding by_key
  quota_set name limit = by_key name (λ t. Client.quota_set t ctx name limit)

  unfoldable pub quota_set_n : Bytes → ℕ → ℕ → Command (List Shard) Bool
  unfolding by_key
  quota_set_n name limit clients = by_key name (λ t. Client.quota_set_n t ctx name limit clients)

  unfoldable pub quota_release : Bytes → Bytes → Command (List Shard) Bool
  unfolding by_key
  quota_release name client_id = by_key name (λ t. Client.quota_release t ctx name client_id)

  unfoldable pub quota_delete : Bytes → Command (List Shard) Bool
  unfolding by_key
  quota_delete name = by_key name (λ t. Client.quota_delete t ctx name)

  unfoldable pub quota_info : Bytes → Command (List Shard) QuotaInfo
  unfolding by_key
  quota_info name = by_key name (λ t. Client.quota_info t ctx name)

module _ (ctx : Ctx) where
  unfoldable pub scan_all : Bytes → ℕ → Command (List Shard) ScanResult
  unfolding call scan
  scan_all = scan (λ cursor count. call (λ t. Client.scan t ctx cursor count))

  unfoldable pub pscan_all : Bytes → Bytes → ℕ → Command (List Shard) ScanResult
  unfolding call scan
  pscan_all prefix = scan (λ cursor count. call (λ t. Client.pscan t ctx prefix cursor count))

  unfoldable pub flush_db : Command (List Shard) Bool
  unfolding call bool_command_on_all_shards
  flush_db = bool_command_on_all_shards (call (λ t. Client.flush_db t ctx))

  unfoldable pub truncate : Command (List Shard) Bool
  unfolding call bool_command_on_all_shards
  truncate = bool_command_on_all_shards (call (λ t. Client.truncate t ctx))

  unfoldable pub inspect :
      {R : Type 0} → (Bytes → Result R) → R → Bytes → Command (List Shard) (List R)
  unfolding call inspect_all
  inspect unmarshal zero_report section =
      inspect_all (call (λ t. Client.inspect t ctx unmarshal zero_report section))
