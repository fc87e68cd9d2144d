-- ===== src/Sharded/Cursor.antt =====
-- sharded_client.go: the scan over the shards and its cursors.
use fq_client_go.Common.{
  ℕ, zero, suc, ◌-◌, ◌%◌, ◌^◌, Bool, true, false, ◌||◌, Option, none, some, List, [], ◌∷◌, ◌++◌,
  Bytes, length, ltb, leb, ◌==◌, if◌then◌else◌,
}
use fq_client_go.Errors.{sentinel, corrupted_response, Result, ok, err}
use fq_client_go.Text.{bytes_eq, split_n2}
use fq_client_go.Decimal.{format_uint, parse_uint}
use fq_client_go.Types.{ScanKey, ScanResult}
use fq_client_go.Command.{scan_cursor_initial}
use fq_client_go.Sharded.{ℤ, pos, negsuc, Command, put_behind, on_shard}

abbrev pub separator : ℕ
separator = b':'

unfoldable pub negated : Option ℕ → Option ℤ
negated none = none
negated (some zero) = some (pos 0)
negated (some (suc n)) = if leb (suc n) (2 ^ 63) then some (negsuc n) else none

unfoldable pub not_negated : Option ℕ → Option ℤ
not_negated none = none
not_negated (some n) = some (pos n)

-- `strconv.Atoi`: a sign or none, and digits.
unfoldable pub atoi : Bytes → Option ℤ
unfolding negated not_negated
atoi [] = none
atoi (c ∷ s) =
    if c == b'-'
    then negated (parse_uint 64 s)
    else if c == b'+'
    then not_negated (parse_uint 63 s)
    else not_negated (parse_uint 63 (c ∷ s))

-- `err != nil || shardIndex < 0 || shardIndex >= len(c.shards)`
unfoldable pub cursor_index : ℕ → Option ℤ → Bytes → Result (ℕ × Bytes)
cursor_index count none shard_cursor = err (sentinel corrupted_response)
cursor_index count (some (negsuc n)) shard_cursor = err (sentinel corrupted_response)
cursor_index count (some (pos i)) shard_cursor =
    if ltb i count then ok (i, shard_cursor) else err (sentinel corrupted_response)

-- `len(parts) != 2 || parts[1] == ""`
unfoldable pub cursor_parts : ℕ → List Bytes → Result (ℕ × Bytes)
unfolding cursor_index
cursor_parts count (index ∷ (c ∷ shard_cursor) ∷ []) =
    cursor_index count (atoi index) (c ∷ shard_cursor)
cursor_parts count _ = err (sentinel corrupted_response)

unfoldable pub parse_scan_cursor : ℕ → Bytes → Result (ℕ × Bytes)
unfolding cursor_parts
parse_scan_cursor count cursor =
    if bytes_eq cursor [] || bytes_eq cursor scan_cursor_initial
    then ok (0, scan_cursor_initial)
    else cursor_parts count (split_n2 cursor separator)

unfoldable pub make_scan_cursor : ℕ → ℕ → Bytes → Bytes
make_scan_cursor count index shard_cursor =
    if leb count index then scan_cursor_initial else format_uint index ++ separator ∷ shard_cursor

-- The scan of one shard, from a cursor and for at most so many keys.
abbrev pub ScanShard : Type 0 → Type 0
ScanShard S = Bytes → ℕ → Command S ScanResult

module _ {S : Type 0} (scan_shard : ScanShard S) (shard_count count : ℕ) where
  abbrev pub page : ℕ → Bytes → List ScanKey → ScanResult
  page index shard_cursor keys = record {
    cursor = make_scan_cursor shard_count index shard_cursor;
    keys = keys;
  }

  -- `len(keys) < int(count)`
  unfoldable pub while_short :
      Bool
      → ℕ
      → List ScanKey
      → List S
      → (Unit {0} → Option (Result ScanResult × List S))
      → Option (Result ScanResult × List S)
  while_short false index keys shards go_on =
      some (ok (page index scan_cursor_initial keys), shards)
  while_short true index keys shards go_on = go_on tt

  -- A shard that is not at its end is where the next scan goes on.
  unfoldable pub at_end :
      Bool
      → ℕ
      → ScanResult
      → List ScanKey
      → S
      → List S
      → (List ScanKey → Option (Result ScanResult × List S))
      → Option (Result ScanResult × List S)
  unfolding put_behind
  at_end false index result keys s rest next =
      some (ok (page index result.cursor (keys ++ result.keys)), s ∷ rest)
  at_end true index result keys s rest next = put_behind s (next (keys ++ result.keys))

  unfoldable pub scanned :
      ℕ
      → List ScanKey
      → List S
      → Option (Result ScanResult × S)
      → (List ScanKey → Option (Result ScanResult × List S))
      → Option (Result ScanResult × List S)
  unfolding at_end
  scanned index keys rest none next = none
  scanned index keys rest (some (err e, s)) next = some (err e, s ∷ rest)
  scanned index keys rest (some (ok result, s)) next =
      at_end (bytes_eq result.cursor scan_cursor_initial) index result keys s rest next

  -- The loop, where the shards from `index` on are left.
  unfoldable pub scan_loop : ℕ → Bytes → List ScanKey → Command (List S) ScanResult
  unfolding while_short scanned
  scan_loop index shard_cursor keys [] = some (ok (page index scan_cursor_initial keys), [])
  scan_loop index shard_cursor keys (s ∷ rest) =
      while_short (ltb (length keys) count) index keys (s ∷ rest) λ _.
        scanned index keys rest (scan_shard shard_cursor (count - length keys % 2 ^ 32) s)
          λ more. scan_loop (suc index) scan_cursor_initial more rest

  -- The shards in front of `index` are left alone.
  unfoldable pub scan_behind : ℕ → Bytes → Command (List S) ScanResult → Command (List S) ScanResult
  unfolding put_behind
  scan_behind zero shard_cursor loop shards = loop shards
  scan_behind (suc index) shard_cursor loop [] = loop []
  scan_behind (suc index) shard_cursor loop (s ∷ rest) =
      put_behind s (scan_behind index shard_cursor loop rest)

  unfoldable pub scan_parsed : Result (ℕ × Bytes) → Command (List S) ScanResult
  unfolding scan_loop scan_behind
  scan_parsed (err e) shards = some (err e, shards)
  scan_parsed (ok (index, shard_cursor)) shards =
      scan_behind index shard_cursor (scan_loop index shard_cursor []) shards

-- `scan`: a count of 0 goes to the first shard alone.
unfoldable pub scan : {S : Type 0} → ScanShard S → Bytes → ℕ → Command (List S) ScanResult
unfolding scan_parsed on_shard
scan scan_shard cursor count shards =
    if count == 0
    then on_shard 0 (scan_shard scan_cursor_initial count) shards
    else scan_parsed scan_shard (length shards) count (parse_scan_cursor (length shards) cursor)
        shards
