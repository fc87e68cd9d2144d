-- ===== src/Pool/Laws.antt =====
-- conn_pool.go: what a pool keeps, one holder at a time.
use fq_client_go.Common.{
  ℕ, ◌-◌, ◌≤◌, ◌<◌, Bool, true, false, none, some, List, [], ◌∷◌, ◌++◌, length, ltb, ltb→lt,
  if◌then◌else◌, ◌≡◌, refl, ap, arith, Bool-cases, inl, inr, ◌⊎◌,
}
use fq_client_go.Errors.{sentinel, conn_pool_closed, Result, ok, err}
use fq_client_go.Net.{Env}
use fq_client_go.Tcp.{TcpClient}
use fq_client_go.Pool.{
  Target, World, Pool, new_tcp_client, taken, made, get_from, get_connection, release_connection,
  new_connection_pool,
}

-- The channel holds no more than its capacity, and a closed pool holds nothing.
pub record IsSound (p : Pool) : Type 0 where
  pub room : length p.idle ≤ p.size
  pub drained : p.closed ≡ true → p.idle ≡ []

-- The world behind a connection that went back into the channel.
abbrev pub given_back : TcpClient → World → World
given_back c w = record w {
  pool = record w.pool { idle = w.pool.idle ++ c ∷ []; outstanding = w.pool.outstanding - 1 };
}

pub new_connection_pool-IsSound : (size : ℕ) → IsSound (new_connection_pool size)
unfolding new_connection_pool
new_connection_pool-IsSound size = record { room = omega arith; drained = λ h. refl }

made-IsSound :
    (w : World) (out : Result TcpClient × Env) → IsSound w.pool → IsSound (made w out).1.pool
unfolding made
made-IsSound w (ok c, env) s = record { room = s.room; drained = s.drained }
made-IsSound w (err e, env) s = s

get_from-IsSound :
    (target : Target) (w : World) (idle : List TcpClient)
    → w.pool.idle ≡ idle
    → w.pool.closed ≡ false
    → IsSound w.pool
    → IsSound (get_from target w idle).1.pool
unfolding get_from taken
get_from-IsSound target w [] e c s = made-IsSound w (new_tcp_client target w.env) s
get_from-IsSound target w (d ∷ rest) e c s = record {
  room = omega (arith, ap length e, s.room);
  drained = λ h. ground arith;
}

pub get_connection-IsSound :
    (target : Target) (w : World) → IsSound w.pool → IsSound (get_connection target w).1.pool
unfolding get_connection
get_connection-IsSound target w s = get_guarded w.pool.closed refl
  where
    get_guarded :
        (b : Bool)
        → w.pool.closed ≡ b
        → IsSound
            (if b
              then (err (sentinel conn_pool_closed), w)
              else get_from target w w.pool.idle).1.pool
    get_guarded true c = s
    get_guarded false c = get_from-IsSound target w w.pool.idle refl c s

-- Releasing on an open pool blocks, on a full channel, or puts the connection behind the others.
pub release_connection-cases :
    (c : TcpClient) (w : World)
    → w.pool.closed ≡ false
    → ((release_connection c w ≡ none) × (w.pool.size ≤ length w.pool.idle))
      ⊎ ((release_connection c w ≡ some (given_back c w)) × (length w.pool.idle < w.pool.size))
unfolding release_connection
release_connection-cases c w o = elim (Bool-cases (ltb (length w.pool.idle) w.pool.size)) [
  | inl r ↦ inr (simp (o, r), ltb→lt _ _ r)
  | inr r ↦ inl (simp (o, r), ground arith)
]
