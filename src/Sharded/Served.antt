-- ===== src/Sharded/Served.antt =====
-- sharded_client.go: the methods that go to the shard of a key, down to the connection of that shard.
use fq_client_go.Common.{ℕ, ◌≡◌, refl, ap, ◌∙◌, Option, some, List, ◌∷◌, ◌++◌, Bytes, length}
use fq_client_go.Errors.{Result}
use fq_client_go.Types.{CappingKey, LimitKey}
use fq_client_go.Net.{Ctx}
use fq_client_go.Command.Request.{encode}
use fq_client_go.Tcp.{TcpClient}
use fq_client_go.Pool.{World}
use fq_client_go.Client.Laws.{Serves, Answered}
use fq_client_go.Client.Methods.{
  Kind, a_number, a_flag, a_rate_limit, an_acquisition, a_quota, Value, Method, request_of,
}
use fq_client_go.Client.Methods.Served.{
  Answer, answer_wire, AnswerFits, answer_result, calls-Answered,
}
use fq_client_go.Client
use fq_client_go.Sharded.{ShardingFunc, pos, Command, on_shard_by_key}
use fq_client_go.Sharded.Laws.{on_shard_by_key-at}
use fq_client_go.Sharded.Methods.{Shard, kept, call, by_key}
use fq_client_go.Sharded

-- The methods of a client that the sharded client sends to one shard, each with the key that picks it.
pub data Keyed : (k : Kind) → Method k → Bytes → Type 0 where
  by_incr : (key : CappingKey) → Keyed a_number (Client.Methods.incr key) key.key
  by_get : (key : CappingKey) → Keyed a_number (Client.Methods.get key) key.key
  by_watch : (key : CappingKey) → Keyed a_number (Client.Methods.watch key) key.key
  by_del : (key : CappingKey) → Keyed a_flag (Client.Methods.del key) key.key
  by_rlimit_fixed_window :
      (key : LimitKey) (limit : ℕ)
      → Keyed a_rate_limit (Client.Methods.rlimit_fixed_window key limit) key.key
  by_rlimit_sliding_window :
      (key : LimitKey) (limit : ℕ)
      → Keyed a_rate_limit (Client.Methods.rlimit_sliding_window key limit) key.key
  by_rlimit_token_bucket :
      (key : LimitKey) (capacity refill : ℕ)
      → Keyed a_rate_limit (Client.Methods.rlimit_token_bucket key capacity refill) key.key
  by_acquire_quota :
      (name : Bytes) (amount : ℕ) (client : Bytes) (ttl : List ℕ)
      → Keyed an_acquisition (Client.Methods.acquire_quota name amount client ttl) name
  by_acquire_lease :
      (name : Bytes) (limit amount : ℕ) (client : Bytes) (ttl : List ℕ)
      → Keyed an_acquisition (Client.Methods.acquire_lease name limit amount client ttl) name
  by_acquire_n :
      (name client : Bytes) (ttl : List ℕ)
      → Keyed an_acquisition (Client.Methods.acquire_n name client ttl) name
  by_quota_set :
      (name : Bytes) (limit : ℕ) → Keyed a_flag (Client.Methods.quota_set name limit) name
  by_quota_set_n :
      (name : Bytes) (limit clients : ℕ)
      → Keyed a_flag (Client.Methods.quota_set_n name limit clients) name
  by_quota_release :
      (name client : Bytes) → Keyed a_flag (Client.Methods.quota_release name client) name
  by_quota_delete : (name : Bytes) → Keyed a_flag (Client.Methods.quota_delete name) name
  by_info : (name : Bytes) → Keyed a_quota (Client.Methods.info name) name

-- The method of the sharded client.
abbrev pub sharded_call :
    {k : Kind} {m : Method k} {key : Bytes}
    → Keyed k m key
    → ShardingFunc
    → Ctx
    → Command (List Shard) (Value k)
sharded_call (by_incr key) sharding_func ctx = Sharded.Methods.incr sharding_func ctx key
sharded_call (by_get key) sharding_func ctx = Sharded.Methods.get sharding_func ctx key
sharded_call (by_watch key) sharding_func ctx = Sharded.Methods.watch sharding_func ctx key
sharded_call (by_del key) sharding_func ctx = Sharded.Methods.del sharding_func ctx key
sharded_call (by_rlimit_fixed_window key limit) sharding_func ctx =
    Sharded.Methods.rlimit_fixed_window sharding_func ctx key limit
sharded_call (by_rlimit_sliding_window key limit) sharding_func ctx =
    Sharded.Methods.rlimit_sliding_window sharding_func ctx key limit
sharded_call (by_rlimit_token_bucket key capacity refill) sharding_func ctx =
    Sharded.Methods.rlimit_token_bucket sharding_func ctx key capacity refill
sharded_call (by_acquire_quota name amount client ttl) sharding_func ctx =
    Sharded.Methods.quota_acquire sharding_func ctx name amount client ttl
sharded_call (by_acquire_lease name limit amount client ttl) sharding_func ctx =
    Sharded.Methods.quota_acquire_lease sharding_func ctx name limit amount client ttl
sharded_call (by_acquire_n name client ttl) sharding_func ctx =
    Sharded.Methods.quota_acquire_n sharding_func ctx name client ttl
sharded_call (by_quota_set name limit) sharding_func ctx =
    Sharded.Methods.quota_set sharding_func ctx name limit
sharded_call (by_quota_set_n name limit clients) sharding_func ctx =
    Sharded.Methods.quota_set_n sharding_func ctx name limit clients
sharded_call (by_quota_release name client) sharding_func ctx =
    Sharded.Methods.quota_release sharding_func ctx name client
sharded_call (by_quota_delete name) sharding_func ctx =
    Sharded.Methods.quota_delete sharding_func ctx name
sharded_call (by_info name) sharding_func ctx = Sharded.Methods.quota_info sharding_func ctx name

sharded_call_lem :
    {k : Kind} {m : Method k} {key : Bytes} (d : Keyed k m key) (sharding_func : ShardingFunc)
    (ctx : Ctx) (shards : List Shard)
    → sharded_call d sharding_func ctx shards
      ≡ on_shard_by_key sharding_func key (call (λ t. Client.Methods.call m t ctx)) shards
unfolding by_key Sharded.Methods.incr Sharded.Methods.get Sharded.Methods.watch Sharded.Methods.del
    Sharded.Methods.rlimit_fixed_window Sharded.Methods.rlimit_sliding_window
    Sharded.Methods.rlimit_token_bucket Sharded.Methods.quota_acquire
    Sharded.Methods.quota_acquire_lease Sharded.Methods.quota_acquire_n Sharded.Methods.quota_set
    Sharded.Methods.quota_set_n Sharded.Methods.quota_release Sharded.Methods.quota_delete
    Sharded.Methods.quota_info
sharded_call_lem (by_incr key) sharding_func ctx shards = refl
sharded_call_lem (by_get key) sharding_func ctx shards = refl
sharded_call_lem (by_watch key) sharding_func ctx shards = refl
sharded_call_lem (by_del key) sharding_func ctx shards = refl
sharded_call_lem (by_rlimit_fixed_window key limit) sharding_func ctx shards = refl
sharded_call_lem (by_rlimit_sliding_window key limit) sharding_func ctx shards = refl
sharded_call_lem (by_rlimit_token_bucket key capacity refill) sharding_func ctx shards = refl
sharded_call_lem (by_acquire_quota name amount client ttl) sharding_func ctx shards = refl
sharded_call_lem (by_acquire_lease name limit amount client ttl) sharding_func ctx shards = refl
sharded_call_lem (by_acquire_n name client ttl) sharding_func ctx shards = refl
sharded_call_lem (by_quota_set name limit) sharding_func ctx shards = refl
sharded_call_lem (by_quota_set_n name limit clients) sharding_func ctx shards = refl
sharded_call_lem (by_quota_release name client) sharding_func ctx shards = refl
sharded_call_lem (by_quota_delete name) sharding_func ctx shards = refl
sharded_call_lem (by_info name) sharding_func ctx shards = refl

-- What a call did to the shards: the one behind `front` answered, and no other was touched.
pub record ShardAnswered {A : Type 0} (out : Option (Result A × List Shard)) (r : Result A)
    (front : List Shard) (shard : Shard) (back : List Shard) (c : TcpClient) (rest : List TcpClient)
    (request left : Bytes) (served : Option (Result A × World)) : Type 0 where
  pub answered : Answered served r shard.world c rest request left
  pub returns :
      out ≡ some (r, front ++ record { target = shard.target; world = answered.world } ∷ back)

-- Each of the fifteen methods that go to the shard of a key, when the sharding function names a shard
-- whose pool has a connection that works next: that shard is sent the request as one frame, and the
-- value that it gives, or the error that it refuses with, is returned; its connection is back in its
-- pool, and no other shard is touched.
pub sharded_calls-Answered :
    {k : Kind} {m : Method k} {key : Bytes} (d : Keyed k m key) (a : Answer k)
    (sharding_func : ShardingFunc) (ctx : Ctx) (front back : List Shard) (shard : Shard)
    (c : TcpClient) (rest : List TcpClient) (left : Bytes)
    → sharding_func key (length (front ++ shard ∷ back)) ≡ pos (length front)
    → AnswerFits a
    → Serves shard.world c rest (encode (request_of m)) (answer_wire a) left
    → ShardAnswered
        (sharded_call d sharding_func ctx (front ++ shard ∷ back))
        (answer_result a)
        front
        shard
        back
        c
        rest
        (encode (request_of m))
        left
        (Client.Methods.call m shard.target ctx shard.world)
unfolding call kept
sharded_calls-Answered {m = m} {key} d a sharding_func ctx front back shard c rest left named f s =
    let served = calls-Answered m a shard.target ctx shard.world c rest left f s in
    record {
      answered = served;
      returns =
          sharded_call_lem d sharding_func ctx (front ++ shard ∷ back)
          ∙ on_shard_by_key-at sharding_func key front back shard
              (record { target = shard.target; world = served.world })
              (call (λ t. Client.Methods.call m t ctx)) (answer_result a) named
              (ap (kept shard.target) served.returns);
    }
