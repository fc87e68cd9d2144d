-- ===== src/Pool/Races.antt =====
-- conn_pool.go: the calls in their atomic parts. A goroutine may be stopped between any two of them,
-- also while another is inside `Close`.
pub mod Counted
pub mod Blocks
use fq_client_go.Common.{
  ℕ, suc, ◌+◌, ◌-◌, ◌<◌, Bool, true, false, Option, none, some, List, [], ◌∷◌, ◌++◌, length,
  get_elem?, set, replicate, ◌≡◌,
}
use fq_client_go.Errors.{Error}
use fq_client_go.Tcp.{TcpClient}

-- Where a goroutine stands that uses the pool. A `nil` connection is `none`.
pub data Thread : Type 0 where
  -- in no call of the pool, with no connection
  outside : Thread
  -- `GetConnection`: behind `closed.Load()`; behind a receive; behind `default`; behind
  -- `wg.Add(1)`; behind a dial that failed
  checked : Thread
  received : Option TcpClient → Thread
  missed dialling dial_failed : Thread
  -- behind `GetConnection`
  holding : Option TcpClient → Thread
  -- `ReleaseConnection`: behind `closed.Load()`; behind the send
  sending : Option TcpClient → Thread
  sent_back : Thread
  panicked : Thread

-- Where the goroutine stands that calls `Close`.
pub data Closer : Type 0 where
  -- before `Close`; behind `wg.Wait()`; behind `closed.Store(true)`; in the loop behind
  -- `close(cp.connections)`; behind the loop
  before waited stored draining finished : Closer

pub record State : Type 0 where
  pub channel : List TcpClient
  pub size : ℕ
  pub channel_closed : Bool
  pub count : ℕ
  pub closed : Bool
  pub threads : List Thread
  pub closer : Closer

unfoldable pub new_pool : ℕ → ℕ → State
new_pool size threads = record {
  channel = [];
  size = size;
  channel_closed = false;
  count = 0;
  closed = false;
  threads = replicate threads outside;
  closer = before;
}

-- Goroutine `i` goes on to `t`.
abbrev pub moved : State → ℕ → Thread → State
moved s i t = record s { threads = set s.threads i t }

pub data Step (s : State) : State → Type 0 where
  -- GetConnection
  check_open :
      (i : ℕ) → get_elem? s.threads i ≡ some outside → s.closed ≡ false → Step s (moved s i checked)
  check_closed :
      (i : ℕ) → get_elem? s.threads i ≡ some outside → s.closed ≡ true → Step s (moved s i outside)
  receive :
      (i : ℕ) (c : TcpClient) (rest : List TcpClient)
      → get_elem? s.threads i ≡ some checked
      → s.channel ≡ c ∷ rest
      → Step s (record s { channel = rest; threads = set s.threads i (received (some c)) })
  -- a closed channel that is empty gives nil at once
  receive_nil :
      (i : ℕ)
      → get_elem? s.threads i ≡ some checked
      → s.channel ≡ []
      → s.channel_closed ≡ true
      → Step s (moved s i (received none))
  miss :
      (i : ℕ)
      → get_elem? s.threads i ≡ some checked
      → s.channel ≡ []
      → s.channel_closed ≡ false
      → Step s (moved s i missed)
  add_received :
      (i : ℕ) (c : Option TcpClient)
      → get_elem? s.threads i ≡ some (received c)
      → Step s (record s { count = suc s.count; threads = set s.threads i (holding c) })
  add_missed :
      (i : ℕ)
      → get_elem? s.threads i ≡ some missed
      → Step s (record s { count = suc s.count; threads = set s.threads i dialling })
  dial :
      (i : ℕ) (c : TcpClient)
      → get_elem? s.threads i ≡ some dialling
      → Step s (moved s i (holding (some c)))
  fail_dial : (i : ℕ) → get_elem? s.threads i ≡ some dialling → Step s (moved s i dial_failed)
  done_dial :
      (i : ℕ)
      → get_elem? s.threads i ≡ some dial_failed
      → Step s (record s { count = s.count - 1; threads = set s.threads i outside })
  -- ReleaseConnection
  release_open :
      (i : ℕ) (c : Option TcpClient)
      → get_elem? s.threads i ≡ some (holding c)
      → s.closed ≡ false
      → Step s (moved s i (sending c))
  release_closed :
      (i : ℕ) (c : Option TcpClient)
      → get_elem? s.threads i ≡ some (holding c)
      → s.closed ≡ true
      → Step s (moved s i outside)
  send :
      (i : ℕ) (c : TcpClient)
      → get_elem? s.threads i ≡ some (sending (some c))
      → s.channel_closed ≡ false
      → length s.channel < s.size
      → Step s (record s { channel = s.channel ++ c ∷ []; threads = set s.threads i sent_back })
  -- a channel without room hands the connection to a goroutine that receives
  hand_over :
      (i j : ℕ) (c : TcpClient)
      → get_elem? s.threads i ≡ some (sending (some c))
      → get_elem? s.threads j ≡ some checked
      → s.size ≡ 0
      → s.channel_closed ≡ false
      → Step s (record s { threads = set (set s.threads i sent_back) j (received (some c)) })
  send_panics :
      (i : ℕ) (c : Option TcpClient)
      → get_elem? s.threads i ≡ some (sending c)
      → s.channel_closed ≡ true
      → Step s (moved s i panicked)
  done :
      (i : ℕ)
      → get_elem? s.threads i ≡ some sent_back
      → Step s (record s { count = s.count - 1; threads = set s.threads i outside })
  -- Close
  wait : s.closer ≡ before → s.count ≡ 0 → Step s (record s { closer = waited })
  store : s.closer ≡ waited → Step s (record s { closed = true; closer = stored })
  shut : s.closer ≡ stored → Step s (record s { channel_closed = true; closer = draining })
  drain_one :
      (c : TcpClient) (rest : List TcpClient)
      → s.closer ≡ draining
      → s.channel ≡ c ∷ rest
      → Step s (record s { channel = rest })
  drain_end : s.closer ≡ draining → s.channel ≡ [] → Step s (record s { closer = finished })

pub data Reach (size threads : ℕ) : State → Type 0 where
  start : Reach size threads (new_pool size threads)
  step : (s t : State) → Reach size threads s → Step s t → Reach size threads t
