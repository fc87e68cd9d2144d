-- ===== src/Pool.antt =====
-- conn_pool.go: the pool of connections, a buffered channel and a count of what is out. Its
-- `newConn` is the closure of `New` in client.go over `NewTCPClient` of tcp_client.go.
pub mod Laws
pub mod Sharing
pub mod Races
use fq_client_go.Common.{
  ℕ, zero, suc, ◌+◌, ◌-◌, Bool, true, false, Option, none, some, List, [], ◌∷◌, ◌++◌, Bytes, codes,
  length, ltb, if◌then◌else◌,
}
use fq_client_go.Errors.{
  Error, sentinel, wrap, panic, net_closed, net_error, conn_pool_closed, Result, ok, err,
}
use fq_client_go.Exec.{Exec}
use fq_client_go.Net.{Wire, Env}
use fq_client_go.Tcp.{TcpClient, Session}
use fq_client_go.Tcp.Connect.{connect, close_connection}
use fq_client_go.Options.{ClientOptions, ClientOption, TlsSettings, apply_options}

-- What the closure `newConnFn` holds: the arguments of `NewTCPClient`.
pub record Target : Type 0 where
  pub address : Bytes
  pub max_message_size : ℕ
  pub idle_timeout : ℕ
  pub opts : List (Option ClientOption)

unfoldable pub is_some {ℓ} : {A : Type ℓ} → Option A → Bool
is_some none = false
is_some (some a) = true

-- A client that was never connected has no connection: nothing arrives there and it is closed.
abbrev pub no_wire : Wire
no_wire = record {
  inbox = [];
  fault = sentinel net_closed;
  sent = [];
  write_steps = [];
  deadline_steps = [];
  deadline = 0;
  closed = true;
}

unfoldable pub unconnected : Target → ClientOptions → TcpClient
unfolding is_some
unconnected target settings = record {
  connection = no_wire;
  address = target.address;
  max_message_size = target.max_message_size;
  idle_timeout = target.idle_timeout;
  buffer_size = target.max_message_size;
  token = settings.token;
  tls = is_some settings.tls_config;
}

unfoldable pub connected_client : Result (Unit {0}) × Session → Result TcpClient × Env
connected_client (ok _, s) = (ok s.client, s.env)
connected_client (err e, s) = (err e, s.env)

unfoldable pub connect_with : Target → Result ClientOptions → Exec Env TcpClient
unfolding unconnected connected_client
connect_with target (err e) env = (err e, env)
connect_with target (ok settings) env =
    connected_client (connect (record { client = unconnected target settings; env = env }))

-- `NewTCPClient`
unfoldable pub new_tcp_client : Target → Exec Env TcpClient
unfolding connect_with
new_tcp_client target env = connect_with target (apply_options target.opts) env

pub record Pool : Type 0 where
  -- the capacity of the channel, and what it holds, the oldest first
  pub size : ℕ
  pub idle : List TcpClient
  -- the count of the wait group
  pub outstanding : ℕ
  pub closed : Bool

-- A pool and the environment that new connections are dialled in.
pub record World : Type 0 where
  pub pool : Pool
  pub env : Env

-- `NewConnectionPool`
unfoldable pub new_connection_pool : ℕ → Pool
new_connection_pool size = record { size = size; idle = []; outstanding = 0; closed = false }

-- A connection out of the channel, and one that `newConn` made or not.
unfoldable pub taken : World → TcpClient → List TcpClient → Result TcpClient × World
taken w c rest =
    (ok c, record w { pool = record w.pool { idle = rest; outstanding = suc w.pool.outstanding } })

unfoldable pub made : World → Result TcpClient × Env → Result TcpClient × World
made w (ok c, env) =
    (ok c, record { pool = record w.pool { outstanding = suc w.pool.outstanding }; env = env })
made w (err e, env) = (err (wrap (codes "new connection") e), record w { env = env })

-- The select: the channel when it holds a connection, else a new one.
unfoldable pub get_from : Target → World → List TcpClient → Result TcpClient × World
unfolding taken made
get_from target w [] = made w (new_tcp_client target w.env)
get_from target w (c ∷ rest) = taken w c rest

unfoldable pub get_connection : Target → Exec World TcpClient
unfolding get_from
get_connection target w =
    if w.pool.closed then (err (sentinel conn_pool_closed), w) else get_from target w w.pool.idle

-- `none`: the send on the full channel blocks.
unfoldable pub release_connection : TcpClient → World → Option World
release_connection c w =
    if w.pool.closed
    then some w
    else if ltb (length w.pool.idle) w.pool.size
    then some (record w {
      pool = record w.pool { idle = w.pool.idle ++ c ∷ []; outstanding = w.pool.outstanding - 1 };
    })
    else none

unfoldable pub close_client : TcpClient → TcpClient
close_client c = record c { connection = record c.connection { closed = true } }

unfoldable pub close_all : List TcpClient → List TcpClient
unfolding close_client
close_all [] = []
close_all (c ∷ cs) = close_client c ∷ close_all cs

pub data Closing : Type 0 where
  -- `wg.Wait()` does not return
  blocked : Closing
  -- `close` of a closed channel
  panicked : Closing
  -- the pool behind it, and the connections that were closed
  finished : Pool → List TcpClient → Closing

unfoldable pub close_waited : Pool → Closing
unfolding close_all
close_waited p =
    if p.closed
    then panicked
    else finished (record p { idle = []; closed = true }) (close_all p.idle)

unfoldable pub close : Pool → Closing
unfolding close_waited
close p = if ltb 0 p.outstanding then blocked else close_waited p
