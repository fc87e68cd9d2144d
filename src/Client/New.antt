-- ===== src/Client/New.antt =====
-- client.go: `New`, which fills the pool of a new client.
use fq_client_go.Common.{ℕ, zero, suc, Option, none, some, List, [], ◌∷◌, ◌++◌, Bytes}
use fq_client_go.Errors.{Result, ok, err}
use fq_client_go.Net.{Env}
use fq_client_go.Options.{ClientOption}
use fq_client_go.Tcp.{TcpClient}
use fq_client_go.Pool.{
  Pool, Closing, close, Target, World, get_connection, release_connection, new_connection_pool,
}

-- The loop of `New` that fills the pool. On an error it returns at once, and the connections that
-- it holds are dropped.
unfoldable pub fill_next :
    Result TcpClient × World
    → (TcpClient → World → Result (List TcpClient) × World)
    → Result (List TcpClient) × World
fill_next (err e, w) next = (err e, w)
fill_next (ok c, w) next = next c w

unfoldable pub fill : Target → ℕ → List TcpClient → World → Result (List TcpClient) × World
unfolding fill_next
fill target zero conns w = (ok conns, w)
fill target (suc n) conns w =
    fill_next (get_connection target w) (λ c v. fill target n (conns ++ c ∷ []) v)

unfoldable pub release_next : Option World → (World → Option World) → Option World
release_next none next = none
release_next (some w) next = next w

unfoldable pub release_all : List TcpClient → World → Option World
unfolding release_next
release_all [] w = some w
release_all (c ∷ cs) w = release_next (release_connection c w) (λ v. release_all cs v)

unfoldable pub opened : Option World → Option (Result (Unit {0}) × World)
opened none = none
opened (some w) = some (ok tt, w)

unfoldable pub filled : Result (List TcpClient) × World → Option (Result (Unit {0}) × World)
unfolding release_all opened
filled (err e, w) = some (err e, w)
filled (ok conns, w) = opened (release_all conns w)

abbrev pub client_target : Bytes → ℕ → List (Option ClientOption) → Target
client_target address idle_timeout opts = record {
  address = address;
  max_message_size = 4096;
  idle_timeout = idle_timeout;
  opts = opts;
}

-- `New`, for the environment `env`.
unfoldable pub new_client :
    Bytes → ℕ → ℕ → List (Option ClientOption) → Env → Option (Result (Unit {0}) × World)
unfolding fill filled
new_client address idle_timeout pool_size opts env = filled (
    fill (client_target address idle_timeout opts) pool_size []
      (record { pool = new_connection_pool pool_size; env = env }))

-- `Close` of a client.
unfoldable pub client_close : Pool → Closing
client_close p = close p
