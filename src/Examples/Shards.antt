-- ===== src/Examples/Shards.antt =====
-- The sharded client.
use fq_client_go.Common.{ℕ, zero, suc, Bool, true, some, [], ◌∷◌, codes, length, ◌≡◌, refl, arith}
use fq_client_go.Errors.{sentinel, eof, ok, err}
use fq_client_go.Sharded.{ShardingFunc, pos, Command, bool_command_on_all_shards}
use fq_client_go.Sharded.Cursor.{parse_scan_cursor, make_scan_cursor}
use fq_client_go.Sharded.Laws.{
  no_shard, one_more, bool_command_on_all_shards-Asked, stopped, parse_scan_cursor-make_scan_cursor,
}

-- The shard of a key is given by its length.
abbrev by_length : ShardingFunc
by_length key count = pos (length key)

-- A shard at 0 fails.
abbrev failing : Command ℕ Bool
failing zero = some (err (sentinel eof), 0)
failing (suc n) = some (ok true, n)

bool_command_on_all_shards-Asked_example :
    bool_command_on_all_shards failing (5 ∷ 0 ∷ 6 ∷ []) ≡ some (err (sentinel eof), 4 ∷ 0 ∷ 6 ∷ [])
bool_command_on_all_shards-Asked_example =
    bool_command_on_all_shards-Asked failing (5 ∷ 0 ∷ 6 ∷ []) (4 ∷ 0 ∷ 6 ∷ []) (err (sentinel eof))
      (stopped (5 ∷ []) (4 ∷ []) (true ∷ []) 0 0 (6 ∷ []) (sentinel eof)
        (one_more 5 4 true _ _ _ refl no_shard) refl)

parse_scan_cursor-make_scan_cursor_example :
    parse_scan_cursor 3 (make_scan_cursor 3 2 (codes "17")) ≡ ok (2, codes "17")
parse_scan_cursor-make_scan_cursor_example =
    parse_scan_cursor-make_scan_cursor 3 2 b'1' (codes "7") (omega arith) (omega arith)
