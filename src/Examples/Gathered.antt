-- ===== src/Examples/Gathered.antt =====
-- `MDel` and a scan over two shards, each a client whose next connection answers.
use fq_client_go.Common.{
  ℕ, ◌-◌, ◌%◌, ◌^◌, ◌≤◌, ◌≡◌, ◌≢◌, refl, ap, sym, ◌∙◌, subst, arith, Bool, none, some, Option, List,
  [], ◌∷◌, ◌++◌, map, ◌==◌, Bytes, codes, length, drop,
}
use fq_client_go.Errors.{Result, ok, err}
use fq_client_go.Text.{bytes_eq, join}
use fq_client_go.Decimal.{format_uint, digits}
use fq_client_go.Types.{CappingKey, ScanKey, ScanResult, zero_scan_result}
use fq_client_go.Response.Wire.{ok_wire}
use fq_client_go.Command.{write_multi_command, write_scan_command, write_keys, or_initial, writes}
use fq_client_go.Command.Request.{encode}
use fq_client_go.Tcp.{TcpClient}
use fq_client_go.Tcp.Frames.{frame}
use fq_client_go.Client.Laws.{Serves}
use fq_client_go.Client.Methods.{request_of, a_page}
use fq_client_go.Client.Methods.Served.{gives, answer_wire, calls-Answered}
use fq_client_go.Client
use fq_client_go.Sharded.{ShardingFunc, pos, Command, shard_index_by_key, checked_index, put_behind}
use fq_client_go.Sharded.Methods.{Shard, kept, call}
use fq_client_go.Sharded.MDel.{IndexedKey, grouped_from, group, keys_of, mdel_by_shard}
use fq_client_go.Sharded.Merged.{AnswersKeys, mdel_by_shard-answers}
use fq_client_go.Sharded.Cursor.{
  parse_scan_cursor, make_scan_cursor, ScanShard, scan, scan_parsed, scan_behind, scan_loop,
  while_short, scanned, at_end,
}
use fq_client_go.Sharded.Pages.{IsPaged, IsPage, scan-IsPage}
use fq_client_go.Examples.Wires.{wire_with, client_on, no_deadline, session_on-IsReady}
use fq_client_go.Examples.Pools.{target, one_idle}

abbrev answering : Bytes → TcpClient
answering resp = client_on (wire_with (frame resp ++ []))

abbrev shard_on : Bytes → Shard
shard_on resp = record { target = target; world = one_idle (answering resp) }

answering-Serves :
    (request resp : Bytes)
    → length request ≤ 4096
    → length resp ≤ 4096
    → Serves (one_idle (answering resp)) (answering resp) [] request resp []
answering-Serves request resp fits small = record {
  is_open = refl;
  sound = record { room = omega arith; drained = λ h. grind arith };
  next = refl;
  ready = session_on-IsReady _ [];
  arrived = refl;
  fits = fits;
  small = small;
}

-- The shard of a key is given by its length.
abbrev by_length : ShardingFunc
by_length key count = pos (length key)

-- Every shard answers by the number in the key.
abbrev capped : CappingKey → Bool
capped key = key.capping == 60

-- Two keys of shard 1 around one of shard 0.
abbrev first_key : CappingKey
first_key = record { key = codes "a"; capping = 60 }

abbrev empty_key : CappingKey
empty_key = record { key = []; capping = 1 }

abbrev last_key : CappingKey
last_key = record { key = codes "b"; capping = 7 }

abbrev three_placed : List IndexedKey
three_placed =
    record { key = first_key; index = 0; shard = 1 }
    ∷ record { key = empty_key; index = 1; shard = 0 }
    ∷ record { key = last_key; index = 2; shard = 1 }
    ∷ []

abbrev mdel_of : List CappingKey → Command Shard (List Bool)
mdel_of keys = call (λ t. Client.mdel t no_deadline keys)

abbrev two_shards : List Shard
two_shards =
    shard_on (ok_wire (format_uint 0 ∷ []))
    ∷ shard_on (ok_wire (format_uint 1 ∷ format_uint 0 ∷ []))
    ∷ []

first-AnswersKeys : AnswersKeys capped mdel_of three_placed two_shards 1
unfolding call kept group keys_of encode write_multi_command write_keys writes ok_wire join
    format_uint digits
first-AnswersKeys =
    let resp = ok_wire (format_uint 1 ∷ format_uint 0 ∷ []) in
    let r =
      calls-Answered (Client.Methods.mdel (first_key ∷ last_key ∷ [])) (gives (1 ∷ 0 ∷ [])) target
        no_deadline (one_idle (answering resp)) (answering resp) [] []
        ((λ x. cc), (omega arith, (omega arith, tt)))
        (answering-Serves _ _ (omega arith) (omega arith)) in
    record {
      before = shard_on resp;
      after = record { target = target; world = r.world };
      there = refl;
      answers = ap (kept target) r.returns;
    }

second-AnswersKeys : AnswersKeys capped mdel_of three_placed two_shards 0
unfolding call kept group keys_of encode write_multi_command write_keys writes ok_wire join
    format_uint digits
second-AnswersKeys =
    let resp = ok_wire (format_uint 0 ∷ []) in
    let r =
      calls-Answered (Client.Methods.mdel (empty_key ∷ [])) (gives (0 ∷ [])) target no_deadline
        (one_idle (answering resp)) (answering resp) [] [] ((λ x. cc), (omega arith, tt))
        (answering-Serves _ _ (omega arith) (omega arith)) in
    record {
      before = shard_on resp;
      after = record { target = target; world = r.world };
      there = refl;
      answers = ap (kept target) r.returns;
    }

mdel_by_shard-answers_example :
    (after : List Shard) × (mdel_by_shard by_length mdel_of
        (1 ∷ 0 ∷ [])
        (first_key ∷ empty_key ∷ last_key ∷ [])
        two_shards
      ≡ some (ok (map capped (first_key ∷ empty_key ∷ last_key ∷ [])), after))
unfolding grouped_from shard_index_by_key checked_index
mdel_by_shard-answers_example =
    mdel_by_shard-answers by_length mdel_of capped (1 ∷ 0 ∷ [])
      (first_key ∷ empty_key ∷ last_key ∷ []) two_shards three_placed refl (refl, (refl, tt))
      (refl, (refl, (refl, tt))) (first-AnswersKeys, (second-AnswersKeys, tt))

abbrev scan_of : ScanShard Shard
scan_of cursor count = call (λ t. Client.scan t no_deadline cursor count)

abbrev found : ScanKey
found = record { key = codes "k"; window = 60 }

-- The first shard is at its end behind its page, the second is not.
abbrev first_page : ScanResult
first_page = record { cursor = codes "0"; keys = found ∷ [] }

abbrev second_page : ScanResult
second_page = record { cursor = codes "17"; keys = found ∷ [] }

abbrev scanned_shard : ScanResult → Shard
scanned_shard page = shard_on (answer_wire {k = a_page} (gives page))

record Gives (page : ScanResult) (count : ℕ) : Type 0 where
  after : Shard
  returns : scan_of (codes "0") count (scanned_shard page) ≡ some (ok page, after)

first-Gives : Gives first_page 5
unfolding call kept encode write_scan_command or_initial writes ok_wire join format_uint digits
first-Gives =
    let resp = answer_wire {k = a_page} (gives first_page) in
    let r =
      calls-Answered (Client.Methods.scan (codes "0") 5) (gives first_page) target no_deadline
        (one_idle (answering resp)) (answering resp) [] []
        (record {
          cursor = omega arith;
          keys = (record { key = omega arith; window = omega arith }, tt);
        })
        (answering-Serves _ _ (omega arith) (omega arith)) in
    record {
      after = record { target = target; world = r.world };
      returns = ap (kept target) r.returns;
    }

second-Gives : Gives second_page 4
unfolding call kept encode write_scan_command or_initial writes ok_wire join format_uint digits
second-Gives =
    let resp = answer_wire {k = a_page} (gives second_page) in
    let r =
      calls-Answered (Client.Methods.scan (codes "0") 4) (gives second_page) target no_deadline
        (one_idle (answering resp)) (answering resp) [] []
        (record {
          cursor = omega arith;
          keys = (record { key = omega arith; window = omega arith }, tt);
        })
        (answering-Serves _ _ (omega arith) (omega arith)) in
    record {
      after = record { target = target; world = r.world };
      returns = ap (kept target) r.returns;
    }

abbrev page_given : Option (Result ScanResult × Shard) → ScanResult
page_given none = zero_scan_result
page_given (some (ok page, s)) = page
page_given (some (err e, s)) = zero_scan_result

Gives-IsPaged :
    (page : ScanResult) (count : ℕ) (keys : List ScanKey) (rest : List Shard)
    → Gives page (count - length keys % 2 ^ 32)
    → length page.keys ≤ count - length keys % 2 ^ 32
    → page.cursor ≢ []
    → IsPaged scan_of count (codes "0") (keys ++ page.keys) rest
    → IsPaged scan_of count (codes "0") keys (scanned_shard page ∷ rest)
Gives-IsPaged page count keys rest g short n behind r t e =
    subst
      (λ p.
        (length p.keys ≤ count - length keys % 2 ^ 32)
        × (p.cursor ≢ [])
        × IsPaged scan_of count (codes "0") (keys ++ p.keys) rest)
      (ap page_given (sym g.returns ∙ e)) (short, n, behind)

abbrev scanned_shards : List Shard
scanned_shards = scanned_shard first_page ∷ scanned_shard second_page ∷ []

scanned-IsPaged : IsPaged scan_of 5 (codes "0") [] scanned_shards
scanned-IsPaged =
    Gives-IsPaged first_page 5 [] (scanned_shard second_page ∷ []) first-Gives (omega arith)
      (λ x. cc)
      (Gives-IsPaged second_page 5 (found ∷ []) [] second-Gives (omega arith) (λ x. cc) tt)

abbrev place_of : Result (ℕ × Bytes) → ℕ × Bytes
place_of (ok p) = p
place_of (err e) = (0, [])

start-IsPaged :
    (index : ℕ) (cursor : Bytes)
    → parse_scan_cursor 2 [] ≡ ok (index, cursor)
    → IsPaged scan_of 5 cursor [] (drop index scanned_shards)
unfolding parse_scan_cursor bytes_eq
start-IsPaged index cursor e =
    subst (λ (p : ℕ × Bytes). IsPaged scan_of 5 p.1 [] (drop p.0 scanned_shards)) (ap place_of e)
      scanned-IsPaged

abbrev both_pages : ScanResult
both_pages = record { cursor = codes "1:17"; keys = found ∷ found ∷ [] }

two-scanned :
    scan scan_of [] 5 scanned_shards
    ≡ some (ok both_pages, first-Gives.after ∷ second-Gives.after ∷ [])
unfolding scan parse_scan_cursor bytes_eq scan_parsed scan_behind scan_loop while_short scanned
    at_end put_behind make_scan_cursor format_uint digits
two-scanned = rw (first-Gives.returns, second-Gives.returns) refl

scan-IsPage_example : IsPage 2 5 both_pages
scan-IsPage_example =
    scan-IsPage scan_of [] 5 scanned_shards (first-Gives.after ∷ second-Gives.after ∷ []) both_pages
      start-IsPaged (omega arith) (omega arith) (omega arith) two-scanned
