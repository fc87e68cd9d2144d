-- ===== src/Sharded/Pages.antt =====
-- sharded_client.go: a page of a scan over the shards.
use fq_client_go.Common.{
  ℕ, zero, suc, ◌-◌, ◌%◌, ◌^◌, ◌<◌, ◌≤◌, ◌≡◌, ◌≢◌, refl, ap, sym, subst, arith, Bool-cases, inl,
  inr, Bool, true, false, Option, none, some, List, [], ◌∷◌, ◌++◌, Bytes, drop, length,
  length-append, ltb, leb, ltb→lt, ◌==◌,
}
use fq_client_go.Errors.{Error, Result, ok, err}
use fq_client_go.Text.{bytes_eq}
use fq_client_go.Types.{ScanKey, ScanResult, zero_scan_result}
use fq_client_go.Command.{scan_cursor_initial}
use fq_client_go.Sharded.{Command, put_behind}
use fq_client_go.Sharded.Cursor.{
  parse_scan_cursor, make_scan_cursor, ScanShard, page, while_short, at_end, scanned, scan_loop,
  scan_behind, scan_parsed, scan,
}
use fq_client_go.Sharded.Laws.{parse_scan_cursor-make_scan_cursor}

-- Each page that the loop gets, from one shard after another in the state that it is in, has no more
-- keys than were asked for there, and no empty cursor. `keys` are those found before.
abbrev pub IsPaged : {S : Type 0} → ScanShard S → ℕ → Bytes → List ScanKey → List S → Type 0
IsPaged scan_shard count cursor keys [] = Unit
IsPaged {S} scan_shard count cursor keys (s ∷ rest) =
    (r : ScanResult) (t : S)
    → scan_shard cursor (count - length keys % 2 ^ 32) s ≡ some (ok r, t)
    → (length r.keys ≤ count - length keys % 2 ^ 32)
      × (r.cursor ≢ [])
      × IsPaged scan_shard count scan_cursor_initial (keys ++ r.keys) rest

-- A page holds no more keys than were asked for, and its cursor can be passed to the next scan.
pub record IsPage (shard_count count : ℕ) (p : ScanResult) : Type 0 where
  pub short : length p.keys ≤ count
  pub resumes :
      (index : ℕ) × (cursor : Bytes) × (parse_scan_cursor shard_count p.cursor ≡ ok (index, cursor))

module _ (shard_count : ℕ) (small : shard_count < 2 ^ 63) where
  abbrev Resumes : Bytes → Type 0
  Resumes c =
      (index : ℕ) × (cursor : Bytes) × (parse_scan_cursor shard_count c ≡ ok (index, cursor))

  cursor-Resumes : (index : ℕ) (c : Bytes) → c ≢ [] → Resumes (make_scan_cursor shard_count index c)
  unfolding make_scan_cursor
  cursor-Resumes index [] n = absurd (n refl)
  cursor-Resumes index (c ∷ cs) n = elim (Bool-cases (leb shard_count index)) [
    | inl h ↦ subst Resumes (sym (done h)) (0, scan_cursor_initial, first)
    | inr h ↦ (
      index,
      c ∷ cs,
      parse_scan_cursor-make_scan_cursor shard_count index c cs (ground arith) small,
    )
  ]
    where
      done :
          leb shard_count index ≡ true
          → make_scan_cursor shard_count index (c ∷ cs) ≡ scan_cursor_initial
      done h = rw h refl

      first : parse_scan_cursor shard_count scan_cursor_initial ≡ ok (0, scan_cursor_initial)
      first = unfold parse_scan_cursor bytes_eq in refl

module _ {S : Type 0} where
  page_of : Option (Result ScanResult × List S) → ScanResult
  page_of none = zero_scan_result
  page_of (some (ok p, ss)) = p
  page_of (some (err e, ss)) = zero_scan_result

  -- If there is a page, it is one as above.
  record Good (shard_count count : ℕ) (o : Option (Result ScanResult × List S)) : Type 0 where
    good : (p : ScanResult) (ss : List S) → o ≡ some (ok p, ss) → IsPage shard_count count p

  page-Good :
      (shard_count count : ℕ) (p : ScanResult) (ss : List S)
      → IsPage shard_count count p
      → Good shard_count count (some (ok p, ss))
  unfolding page_of
  page-Good m n p ss h = record { good = λ q ts e. subst (IsPage m n) (ap page_of e) h }

  error-Good :
      (shard_count count : ℕ) (e : Error) (ss : List S) → Good shard_count count (some (err e, ss))
  error-Good m n e ss = record { good = λ q ts x. grind arith }

  put_behind-Good :
      (shard_count count : ℕ) (s : S) (o : Option (Result ScanResult × List S))
      → Good shard_count count o
      → Good shard_count count (put_behind s o)
  unfolding put_behind
  put_behind-Good m n s none g = record { good = λ q ts x. grind arith }
  put_behind-Good m n s (some (err e, ss)) g = error-Good m n e (s ∷ ss)
  put_behind-Good m n s (some (ok p, ss)) g = page-Good m n p (s ∷ ss) (g.good p ss refl)

module _ {S : Type 0} (scan_shard : ScanShard S) (shard_count count : ℕ)
    (small : shard_count < 2 ^ 63) (word : count < 2 ^ 32) where
  scan_page :
      (index : ℕ) (c : Bytes) (keys : List ScanKey)
      → c ≢ []
      → length keys ≤ count
      → IsPage shard_count count (page scan_shard shard_count count index c keys)
  scan_page index c keys n l = record {
    short = l;
    resumes = cursor-Resumes shard_count small index c n;
  }

  at_end-Good :
      (ended : Bool) (index : ℕ) (r : ScanResult) (keys : List ScanKey) (s : S) (rest : List S)
      (next : List ScanKey → Option (Result ScanResult × List S))
      → r.cursor ≢ []
      → length (keys ++ r.keys) ≤ count
      → Good shard_count count (next (keys ++ r.keys))
      → Good shard_count count (at_end scan_shard shard_count count ended index r keys s rest next)
  unfolding at_end
  at_end-Good false index r keys s rest next n l k =
      page-Good shard_count count _ _ (scan_page index r.cursor (keys ++ r.keys) n l)
  at_end-Good true index r keys s rest next n l k =
      put_behind-Good shard_count count s (next (keys ++ r.keys)) k

  scanned-Good :
      (index : ℕ) (keys : List ScanKey) (rest : List S) (o : Option (Result ScanResult × S))
      (next : List ScanKey → Option (Result ScanResult × List S))
      → ((r : ScanResult) (t : S)
          → o ≡ some (ok r, t)
          → (r.cursor ≢ [])
            × (length (keys ++ r.keys) ≤ count)
            × Good shard_count count (next (keys ++ r.keys)))
      → Good shard_count count (scanned scan_shard shard_count count index keys rest o next)
  unfolding scanned
  scanned-Good index keys rest none next h = record { good = λ q ts x. grind arith }
  scanned-Good index keys rest (some (err e, s)) next h = error-Good shard_count count e (s ∷ rest)
  scanned-Good index keys rest (some (ok r, s)) next h =
      let (n, l, k) = h r s refl in
      at_end-Good (bytes_eq r.cursor scan_cursor_initial) index r keys s rest next n l k

  initial-nonempty : scan_cursor_initial ≢ []
  initial-nonempty = λ e. cc

  while_short-Good :
      (b : Bool) (index : ℕ) (keys : List ScanKey) (shards : List S)
      (go_on : Unit {0} → Option (Result ScanResult × List S))
      → length keys ≤ count
      → (b ≡ true → Good shard_count count (go_on tt))
      → Good shard_count count (while_short scan_shard shard_count count b index keys shards go_on)
  unfolding while_short
  while_short-Good false index keys shards go_on l k =
      page-Good shard_count count _ _ (scan_page index scan_cursor_initial keys initial-nonempty l)
  while_short-Good true index keys shards go_on l k = k refl

  scan_loop-Good :
      (index : ℕ) (cursor : Bytes) (keys : List ScanKey) (shards : List S)
      → length keys ≤ count
      → IsPaged scan_shard count cursor keys shards
      → Good shard_count count (scan_loop scan_shard shard_count count index cursor keys shards)
  unfolding scan_loop
  scan_loop-Good index cursor keys [] l paged =
      page-Good shard_count count _ _ (scan_page index scan_cursor_initial keys initial-nonempty l)
  scan_loop-Good index cursor keys (s ∷ rest) l paged =
      while_short-Good (ltb (length keys) count) index keys (s ∷ rest) _ l λ under.
        scanned-Good index keys rest (scan_shard cursor (count - length keys % 2 ^ 32) s) _ λ r t e.
          let (short, n, behind) = paged r t e in
          let fits : length (keys ++ r.keys) ≤ count =
            omega (arith, length-append keys r.keys, short, ltb→lt (length keys) count under) in
          (
            n,
            fits,
            scan_loop-Good (suc index) scan_cursor_initial (keys ++ r.keys) rest fits behind,
          )

  scan_behind-Good :
      (index : ℕ) (cursor : Bytes) (loop : Command (List S) ScanResult) (shards : List S)
      → Good shard_count count (loop (drop index shards))
      → Good shard_count count (scan_behind scan_shard shard_count count index cursor loop shards)
  unfolding scan_behind
  scan_behind-Good zero cursor loop shards k = k
  scan_behind-Good (suc index) cursor loop [] k = k
  scan_behind-Good (suc index) cursor loop (s ∷ rest) k =
      put_behind-Good shard_count count s _ (scan_behind-Good index cursor loop rest k)

  scan_parsed-Good :
      (r : Result (ℕ × Bytes)) (shards : List S)
      → ((index : ℕ) (cursor : Bytes)
          → r ≡ ok (index, cursor)
          → IsPaged scan_shard count cursor [] (drop index shards))
      → Good shard_count count (scan_parsed scan_shard shard_count count r shards)
  unfolding scan_parsed
  scan_parsed-Good (err e) shards paged = error-Good shard_count count e shards
  scan_parsed-Good (ok (index, cursor)) shards paged =
      scan_behind-Good index cursor _ shards
        (scan_loop-Good index cursor [] (drop index shards) (omega arith) (paged index cursor refl))

-- A scan over shards, for a positive count of 32 bits, where the cursor names a shard and each page
-- that the scan gets, from that shard on, has no more keys than were asked for there and no empty
-- cursor. When the scan returns a page, it has no more keys than the count, over all shards together,
-- and its cursor is one that the next scan accepts.
pub scan-IsPage :
    {S : Type 0} (scan_shard : ScanShard S) (cursor : Bytes) (count : ℕ) (shards after : List S)
    (p : ScanResult)
    → ((index : ℕ) (shard_cursor : Bytes)
        → parse_scan_cursor (length shards) cursor ≡ ok (index, shard_cursor)
        → IsPaged scan_shard count shard_cursor [] (drop index shards))
    → length shards < 2 ^ 63
    → count < 2 ^ 32
    → 0 < count
    → scan scan_shard cursor count shards ≡ some (ok p, after)
    → IsPage (length shards) count p
unfolding scan
scan-IsPage scan_shard cursor count shards after p paged small word n e =
    let some_count : (count == 0) ≡ false = ground arith in
    (scan_parsed-Good scan_shard (length shards) count small word
        (parse_scan_cursor (length shards) cursor) shards paged).good
      p after (rw some_count at e)
