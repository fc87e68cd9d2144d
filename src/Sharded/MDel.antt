-- ===== src/Sharded/MDel.antt =====
-- sharded_client.go: `MDel`, which groups the keys by shard and puts the answers back in their places.
use fq_client_go.Common.{
  ℕ, suc, Bool, true, false, Option, none, some, List, [], ◌∷◌, length, set, replicate, ◌==◌,
  if◌then◌else◌,
}
use fq_client_go.Errors.{sentinel, corrupted_response, Result, ok, err, ◌>>=◌}
use fq_client_go.Types.{CappingKey}
use fq_client_go.Sharded.{ShardingFunc, Command, shard_index_by_key, on_shard}

-- `indexedCappingKey`, with the group that it stands in.
pub record IndexedKey : Type 0 where
  pub key : CappingKey
  pub index : ℕ
  pub shard : ℕ

-- The first loop: the shard of each key, or the error of the first that has none.
unfoldable pub grouped_from : ShardingFunc → ℕ → ℕ → List CappingKey → Result (List IndexedKey)
grouped_from sharding_func count i [] = ok []
grouped_from sharding_func count i (key ∷ keys) = do
  shard ← shard_index_by_key sharding_func count key.key
  rest ← grouped_from sharding_func count (suc i) keys
  ok (record { key = key; index = i; shard = shard } ∷ rest)

-- `grouped[shard]`, in the order of the keys.
unfoldable pub group : ℕ → List IndexedKey → List IndexedKey
group shard [] = []
group shard (p ∷ ps) = let rest = group shard ps in if p.shard == shard then p ∷ rest else rest

unfoldable pub keys_of : List IndexedKey → List CappingKey
keys_of [] = []
keys_of (p ∷ ps) = p.key ∷ keys_of ps

-- `results[indexedKeys[i].index] = shardResult`
unfoldable pub put_results : List IndexedKey → List Bool → List Bool → List Bool
put_results [] bs results = results
put_results (p ∷ ps) [] results = results
put_results (p ∷ ps) (b ∷ bs) results = put_results ps bs (set results p.index b)

module _ {S : Type 0} where
  -- `len(shardResults) != len(indexedKeys)`
  unfoldable pub right_length :
      Bool
      → List S
      → (Unit {0} → Option (Result (List Bool) × List S))
      → Option (Result (List Bool) × List S)
  right_length false shards next = some (err (sentinel corrupted_response), shards)
  right_length true shards next = next tt

  unfoldable pub group_done :
      List IndexedKey
      → List Bool
      → Option (Result (List Bool) × List S)
      → (List Bool → List S → Option (Result (List Bool) × List S))
      → Option (Result (List Bool) × List S)
  unfolding put_results right_length
  group_done ps results none next = none
  group_done ps results (some (err e, shards)) next = some (err e, shards)
  group_done ps results (some (ok bs, shards)) next =
      right_length (length bs == length ps) shards (λ _. next (put_results ps bs results) shards)

  -- The second loop, over the shards that have keys in the order in which the map yields them.
  unfoldable pub groups_loop :
      (List CappingKey → Command S (List Bool))
      → List IndexedKey
      → List ℕ
      → List Bool
      → Command (List S) (List Bool)
  unfolding group keys_of group_done
  groups_loop mdel placed [] results shards = some (ok results, shards)
  groups_loop mdel placed (shard ∷ order) results shards =
      group_done (group shard placed) results
        (on_shard shard (mdel (keys_of (group shard placed))) shards)
        (λ next ss. groups_loop mdel placed order next ss)

  unfoldable pub mdel_grouped :
      (List CappingKey → Command S (List Bool))
      → List ℕ
      → ℕ
      → Result (List IndexedKey)
      → Command (List S) (List Bool)
  unfolding groups_loop
  mdel_grouped mdel order n (err e) shards = some (err e, shards)
  mdel_grouped mdel order n (ok placed) shards =
      groups_loop mdel placed order (replicate n false) shards

  -- `MDel`, when the map of the groups yields its shards in the order `order`.
  unfoldable pub mdel_by_shard :
      ShardingFunc
      → (List CappingKey → Command S (List Bool))
      → List ℕ
      → List CappingKey
      → Command (List S) (List Bool)
  unfolding grouped_from mdel_grouped
  mdel_by_shard sharding_func mdel order keys shards =
      mdel_grouped mdel order (length keys) (grouped_from sharding_func (length shards) 0 keys)
        shards
