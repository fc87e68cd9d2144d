-- ===== src/Sharded/Open.antt =====
-- sharded_client.go: `NewSharded`, `Close`, `ShardCount` and `Shard`.
use fq_client_go.Common.{
  ℕ, zero, suc, Option, none, some, List, [], ◌∷◌, ◌++◌, Bytes, codes, length, ltb, if◌then◌else◌,
}
use fq_client_go.Errors.{
  Error, sentinel, wrap, panic, no_shards, nil_sharding_func, Result, ok, err,
}
use fq_client_go.Net.{Env}
use fq_client_go.Options.{ClientOption}
use fq_client_go.Pool.{Target, World, Pool, Closing, blocked, panicked, finished}
use fq_client_go.Client.New.{client_close, client_target, new_client}
use fq_client_go.Sharded.{ℤ, pos, negsuc, ShardingFunc, out_of_range}

-- A shard that was opened: the target of its connections, and its pool.
pub record Client : Type 0 where
  pub target : Target
  pub pool : Pool

-- What `NewSharded` comes to, with the environment behind it. Of a failure, what closing the shards
-- before came to, each in its turn.
pub data Start : Type 0 where
  not_started : Error → List Closing → Env → Start
  started : List Client → Env → Start

-- A `Close` that blocks or panics is the last.
unfoldable pub close_next : Closing → List Closing → List Closing
close_next blocked rest = blocked ∷ []
close_next panicked rest = panicked ∷ []
close_next (finished p cs) rest = finished p cs ∷ rest

-- `Close` of the sharded client, and of the shards that `NewSharded` had opened.
unfoldable pub close_shards : List Client → List Closing
unfolding close_next client_close
close_shards [] = []
close_shards (c ∷ cs) = close_next (client_close c.pool) (close_shards cs)

-- `%q`: the address between quotes.
abbrev pub create_failed : Bytes → Error → Error
create_failed address e = wrap (codes "create shard \"" ++ address ++ codes "\"") e

unfoldable pub shard_opened :
    Target
    → Bytes
    → List Client
    → Option (Result (Unit {0}) × World)
    → (List Client → Env → Option Start)
    → Option Start
unfolding close_shards
shard_opened target address shards none next = none
shard_opened target address shards (some (err e, w)) next =
    some (not_started (create_failed address e) (close_shards shards) w.env)
shard_opened target address shards (some (ok _, w)) next =
    next (shards ++ record { target = target; pool = w.pool } ∷ []) w.env

module _ (idle_timeout pool_size : ℕ) (opts : List (Option ClientOption)) where
  -- The loop over the addresses.
  unfoldable pub open_shards : List Bytes → List Client → Env → Option Start
  unfolding shard_opened
  open_shards [] shards env = some (started shards env)
  open_shards (address ∷ addresses) shards env =
      shard_opened (client_target address idle_timeout opts) address shards
        (new_client address idle_timeout pool_size opts env)
        (λ more later. open_shards addresses more later)

  -- `NewSharded`; a nil sharding function is `none`.
  unfoldable pub new_sharded : List Bytes → Option ShardingFunc → Env → Option Start
  unfolding open_shards
  new_sharded [] sharding_func env = some (not_started (sentinel no_shards) [] env)
  new_sharded (address ∷ addresses) none env =
      some (not_started (sentinel nil_sharding_func) [] env)
  new_sharded (address ∷ addresses) (some f) env = open_shards (address ∷ addresses) [] env

unfoldable pub shard_count : {S : Type 0} → List S → ℕ
shard_count shards = length shards

unfoldable pub nth : {S : Type 0} → ℕ → List S → Result S
nth i [] = err (panic (codes "index out of range"))
nth zero (s ∷ shards) = ok s
nth (suc i) (s ∷ shards) = nth i shards

-- `Shard(index)`
unfoldable pub shard : {S : Type 0} → ℤ → List S → Result S
unfolding nth
shard (negsuc n) shards = out_of_range (negsuc n)
shard (pos i) shards = if ltb i (length shards) then nth i shards else out_of_range (pos i)
