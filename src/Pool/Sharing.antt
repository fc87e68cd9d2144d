-- ===== src/Pool/Sharing.antt =====
-- conn_pool.go: a pool whose calls run one after another, each ended before the next begins: a caller
-- takes a connection, gives it back, or closes the pool. A call that blocks has no step. The calls in
-- their atomic parts, which overlap, are in Races.
pub mod Steps
pub mod Reached
use fq_client_go.Common.{
  ℕ, suc, ◌≤◌, ◌<◌, Bool, true, false, none, some, List, [], ◌∷◌, length, length-append, lt→ltb,
  ltb, if◌then◌else◌, ◌≡◌, refl, ap, sym, ◌∙◌, subst, arith, Bool-cases, ◌↔◌, inl, inr, ◌⊎◌,
}
use fq_client_go.Errors.{Error, sentinel, conn_pool_closed, Result, ok, err}
use fq_client_go.Net.{Env}
use fq_client_go.Tcp.{TcpClient}
use fq_client_go.Pool.{
  Target, World, Pool, new_tcp_client, taken, made, get_from, get_connection, release_connection,
  new_connection_pool, close, close_waited, close_all, Closing, finished, blocked, panicked,
}
use fq_client_go.Pool.Laws.{IsSound, get_connection-IsSound, release_connection-cases, given_back}

-- A pool, and how many connections its callers hold.
pub record Shared : Type 0 where
  pub world : World
  pub held : ℕ

abbrev pub started : ℕ → Env → Shared
started size env = record {
  world = record { pool = new_connection_pool size; env = env };
  held = 0;
}

pub data Step (target : Target) : Shared → Shared → Type 0 where
  -- `GetConnection` returns a connection, or an error
  take_one :
      (w v : World) (held : ℕ) (c : TcpClient)
      → get_connection target w ≡ (ok c, v)
      → Step target (record { world = w; held = held }) (record { world = v; held = suc held })
  take_none :
      (w v : World) (held : ℕ) (e : Error)
      → get_connection target w ≡ (err e, v)
      → Step target (record { world = w; held = held }) (record { world = v; held = held })
  -- `ReleaseConnection` of a connection that is held
  give :
      (w v : World) (held : ℕ) (c : TcpClient)
      → release_connection c w ≡ some v
      → Step target (record { world = w; held = suc held }) (record { world = v; held = held })
  -- `Close` returns
  shut :
      (w : World) (held : ℕ) (p : Pool) (cs : List TcpClient)
      → close w.pool ≡ finished p cs
      → Step target
          (record { world = w; held = held })
          (record { world = record w { pool = p }; held = held })
  -- what a caller does with a connection it holds may use the environment up
  use_up :
      (w : World) (held : ℕ) (env : Env)
      → Step target
          (record { world = w; held = held })
          (record { world = record w { env = env }; held = held })

pub data Reach (target : Target) (size : ℕ) : Shared → Type 0 where
  start : (env : Env) → Reach target size (started size env)
  step : (s t : Shared) → Reach target size s → Step target s t → Reach target size t

-- The wait group counts what is held, and nothing is held once the pool is closed.
pub record IsAccounted (size : ℕ) (s : Shared) : Type 0 where
  pub sound : IsSound s.world.pool
  pub capacity : s.world.pool.size ≡ size
  pub counted : s.world.pool.outstanding ≡ s.held
  pub settled : s.world.pool.closed ≡ true → s.held ≡ 0
