-- ===== src/Sharded.antt =====
-- sharded_client.go: one client for each shard, and commands that go to the shard of their key or to
-- all shards in turn. `none` stands for a call that blocks for ever.
pub mod Groups
pub mod Methods
pub mod Cursor
pub mod Laws
pub mod Served
pub mod Open
pub mod Opened
pub mod Events
pub mod Streams
pub mod MDel
pub mod Placing
pub mod Merged
pub mod Pages
use fq_client_go.Common.{
  ℕ, zero, suc, ◌+◌, ◌-◌, ◌%◌, ◌^◌, Bool, true, false, ◌&&◌, ◌||◌, Option, none, some, List, [],
  ◌∷◌, ◌++◌, Bytes, codes, length, take, drop, ltb, leb, ◌==◌, if◌then◌else◌,
}
use fq_client_go.Errors.{
  Error, sentinel, annotate, panic, shard_index_out_of_range, corrupted_response, Result, ok, err,
}
use fq_client_go.Text.{bytes_eq, split_n2}
use fq_client_go.Decimal.{format_uint, parse_uint}
use fq_client_go.Types.{ScanKey, ScanResult}
use fq_client_go.Command.{scan_cursor_initial}

-- Go's int, as the sharding function and `strconv.Atoi` return it.
pub data ℤ : Type 0 where
  pos : ℕ → ℤ
  -- `negsuc n` is -(n + 1)
  negsuc : ℕ → ℤ

unfoldable pub itoa : ℤ → Bytes
itoa (pos n) = format_uint n
itoa (negsuc n) = b'-' ∷ format_uint (suc n)

abbrev pub ShardingFunc : Type 0
ShardingFunc = Bytes → ℕ → ℤ

abbrev pub out_of_range {ℓ} : {A : Type ℓ} → ℤ → Result A
out_of_range index = err (annotate (sentinel shard_index_out_of_range) (itoa index))

-- `index < 0 || index >= count`
unfoldable pub checked_index : ℕ → ℤ → Result ℕ
unfolding itoa
checked_index count (pos i) = if ltb i count then ok i else out_of_range (pos i)
checked_index count (negsuc n) = out_of_range (negsuc n)

unfoldable pub shard_index_by_key : ShardingFunc → ℕ → Bytes → Result ℕ
unfolding checked_index
shard_index_by_key sharding_func count key = checked_index count (sharding_func key count)

-- A call of a method of one shard, and of the sharded client.
abbrev pub Command : Type 0 → Type 0 → Type 0
Command S A = S → Option (Result A × S)

unfoldable pub put_first :
    {S A : Type 0} → List S → Option (Result A × S) → Option (Result A × List S)
put_first rest none = none
put_first rest (some (r, s)) = some (r, s ∷ rest)

unfoldable pub put_behind :
    {S A : Type 0} → S → Option (Result A × List S) → Option (Result A × List S)
put_behind s none = none
put_behind s (some (r, ss)) = some (r, s ∷ ss)

-- `c.shards[index]` and a command there.
unfoldable pub on_shard : {S A : Type 0} → ℕ → Command S A → Command (List S) A
unfolding put_first put_behind
on_shard index command [] = some (err (panic (codes "index out of range")), [])
on_shard zero command (s ∷ rest) = put_first rest (command s)
on_shard (suc index) command (s ∷ rest) = put_behind s (on_shard index command rest)

unfoldable pub routed : {S A : Type 0} → Result ℕ → Command S A → Command (List S) A
unfolding on_shard
routed (err e) command shards = some (err e, shards)
routed (ok index) command shards = on_shard index command shards

-- `shardByKey`, and the command on that shard.
unfoldable pub on_shard_by_key :
    {S A : Type 0} → ShardingFunc → Bytes → Command S A → Command (List S) A
unfolding routed
on_shard_by_key sharding_func key command shards =
    routed (shard_index_by_key sharding_func (length shards) key) command shards

-- The loop of `boolCommandOnAllShards`, with `result` so far.
unfoldable pub next_bool :
    {S : Type 0}
    → Bool
    → List S
    → Option (Result Bool × S)
    → (Bool → Option (Result Bool × List S))
    → Option (Result Bool × List S)
unfolding put_behind
next_bool result rest none next = none
next_bool result rest (some (err e, s)) next = some (err e, s ∷ rest)
next_bool result rest (some (ok b, s)) next = put_behind s (next (result && b))

unfoldable pub bool_loop : {S : Type 0} → Command S Bool → Bool → Command (List S) Bool
unfolding next_bool
bool_loop command result [] = some (ok result, [])
bool_loop command result (s ∷ rest) =
    next_bool result rest (command s) (λ b. bool_loop command b rest)

unfoldable pub bool_command_on_all_shards : {S : Type 0} → Command S Bool → Command (List S) Bool
unfolding bool_loop
bool_command_on_all_shards command shards = bool_loop command true shards

-- The loop of `Inspect`: a report of each shard, or the first error.
unfoldable pub add_report :
    {S R : Type 0} → S → R → Option (Result (List R) × List S) → Option (Result (List R) × List S)
add_report s r none = none
add_report s r (some (ok rs, ss)) = some (ok (r ∷ rs), s ∷ ss)
add_report s r (some (err e, ss)) = some (err e, s ∷ ss)

unfoldable pub next_report :
    {S R : Type 0}
    → List S
    → Option (Result R × S)
    → (Unit {0} → Option (Result (List R) × List S))
    → Option (Result (List R) × List S)
unfolding add_report
next_report rest none next = none
next_report rest (some (err e, s)) next = some (err e, s ∷ rest)
next_report rest (some (ok r, s)) next = add_report s r (next tt)

unfoldable pub inspect_all : {S R : Type 0} → Command S R → Command (List S) (List R)
unfolding next_report
inspect_all command [] = some (ok [], [])
inspect_all command (s ∷ rest) = next_report rest (command s) (λ _. inspect_all command rest)
