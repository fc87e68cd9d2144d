-- ===== src/Client/Opening.antt =====
-- client.go: `New` fills the pool of a new client.
use fq_client_go.Common.{
  ℕ, zero, suc, ◌+◌, false, Option, some, List, [], ◌∷◌, ◌++◌, Bytes, length, length-append,
  if◌then◌else◌, ◌≡◌, refl, ap, sym, ◌∙◌, subst, arith, inl, inr,
}
use fq_client_go.Errors.{Error, sentinel, conn_pool_closed, Result, ok, err}
use fq_client_go.Net.{Env}
use fq_client_go.Options.{ClientOption}
use fq_client_go.Tcp.{TcpClient}
use fq_client_go.Pool.{
  Target, World, Pool, new_tcp_client, made, get_from, get_connection, new_connection_pool,
}
use fq_client_go.Pool.Laws.{release_connection-cases, given_back}
use fq_client_go.Client.New.{
  fill, fill_next, release_next, release_all, opened, filled, client_target, new_client,
}

-- While `n` connections are out: the channel is empty and the pool is open.
record Filling (size n : ℕ) (p : Pool) : Type 0 where
  size_is : p.size ≡ size
  empty : p.idle ≡ []
  is_open : p.closed ≡ false
  out : p.outstanding ≡ n

-- What a pool is behind `New`.
pub record Full (size : ℕ) (p : Pool) : Type 0 where
  pub size_is : p.size ≡ size
  pub all_idle : length p.idle ≡ size
  pub is_open : p.closed ≡ false
  pub none_out : p.outstanding ≡ 0

-- With `left` connections still to give back.
record Giving (size left : ℕ) (p : Pool) : Type 0 where
  size_is : p.size ≡ size
  idle : length p.idle + left ≡ size
  is_open : p.closed ≡ false
  out : p.outstanding ≡ left

release_all-Full :
    (size : ℕ) (cs : List TcpClient) (w : World)
    → Giving size (length cs) w.pool
    → (v : World) × (release_all cs w ≡ some v) × Full size v.pool
unfolding release_all
release_all-Full size [] w g = (
  w,
  refl,
  record {
    size_is = g.size_is;
    all_idle = omega (arith, g.idle);
    is_open = g.is_open;
    none_out = g.out;
  },
)
release_all-Full size (c ∷ cs) w g = elim (release_connection-cases c w g.is_open) [
  | inl (x, full) ↦ absurd (omega (arith, g.idle, g.size_is))
  | inr (x, room) ↦
      let (v, e, f) = release_all-Full size cs (given_back c w) (record {
        size_is = g.size_is;
        idle = omega (arith, g.idle, length-append w.pool.idle (c ∷ []));
        is_open = g.is_open;
        out = omega (arith, g.out);
      }) in
      (v, ap (λ o. release_next o (λ u. release_all cs u)) x ∙ e, f)
]

-- A result of the loop: an error, or the connections, which are out of the pool.
data Loaded (size : ℕ) : Result (List TcpClient) × World → Type 0 where
  failed : (e : Error) (w : World) → Loaded size (err e, w)
  loaded :
      (cs : List TcpClient) (w : World)
      → length cs ≡ size
      → Filling size size w.pool
      → Loaded size (ok cs, w)

next-Loaded :
    (size : ℕ) (conns : List TcpClient) (w : World) (out : Result TcpClient × Env)
    (next : TcpClient → World → Result (List TcpClient) × World)
    → Filling size (length conns) w.pool
    → ((c : TcpClient) (v : World)
        → Filling size (suc (length conns)) v.pool
        → Loaded size (next c v))
    → Loaded size (fill_next (made w out) next)
unfolding made fill_next
next-Loaded size conns w (err e, env) next f k = failed _ _
next-Loaded size conns w (ok c, env) next f k =
    k c _ (record { size_is = f.size_is; empty = f.empty; is_open = f.is_open; out = ap suc f.out })

fill-Loaded :
    (target : Target) (size n : ℕ) (conns : List TcpClient) (w : World)
    → length conns + n ≡ size
    → Filling size (length conns) w.pool
    → Loaded size (fill target n conns w)
unfolding fill get_connection get_from
fill-Loaded target size zero conns w l f = loaded conns w (omega arith) (record {
  size_is = f.size_is;
  empty = f.empty;
  is_open = f.is_open;
  out = omega (arith, f.out);
})
fill-Loaded target size (suc n) conns w l f =
    let next = λ (c : TcpClient) (v : World). fill target n (conns ++ c ∷ []) v in
    let dials : get_connection target w ≡ made w (new_tcp_client target w.env) =
      (λ i.
        if f.is_open i then (err (sentinel conn_pool_closed), w) else get_from target w w.pool.idle)
      ∙ ap (get_from target w) f.empty in
    subst (λ o. Loaded size (fill_next o next)) (sym dials)
      (next-Loaded size conns w (new_tcp_client target w.env) next f λ c v g.
        fill-Loaded target size n (conns ++ c ∷ []) v (omega (arith, length-append conns (c ∷ [])))
          (record {
            size_is = g.size_is;
            empty = g.empty;
            is_open = g.is_open;
            out = omega (arith, g.out, length-append conns (c ∷ []));
          }))

-- What `New` returns.
pub data Opened (size : ℕ) : Result (Unit {0}) × World → Type 0 where
  not_opened : (e : Error) (w : World) → Opened size (err e, w)
  is_full : (w : World) → Full size w.pool → Opened size (ok tt, w)

filled-Opened :
    (size : ℕ) (out : Result (List TcpClient) × World)
    → Loaded size out
    → (r : Result (Unit {0}) × World) × (filled out ≡ some r) × Opened size r
unfolding filled opened
filled-Opened size _ (failed e w) = ((err e, w), refl, not_opened e w)
filled-Opened size _ (loaded cs w l f) =
    let (v, e, full) = release_all-Full size cs w (record {
      size_is = f.size_is;
      idle = omega (arith, ap length f.empty);
      is_open = f.is_open;
      out = omega (arith, f.out);
    }) in
    ((ok tt, v), ap opened e, is_full v full)

-- `New` returns, however the network behaves, for every size of the pool: with an error, or with an
-- open pool whose channel is full and of which nothing is out.
pub new_client-Opened :
    (address : Bytes) (idle_timeout pool_size : ℕ) (opts : List (Option ClientOption)) (env : Env)
    → (r : Result (Unit {0}) × World) × (new_client address idle_timeout pool_size opts env
        ≡ some r)
      × Opened pool_size r
unfolding new_client new_connection_pool
new_client-Opened address idle_timeout pool_size opts env = filled-Opened pool_size _ (
    fill-Loaded (client_target address idle_timeout opts) pool_size pool_size [] _ (omega arith)
      (record { size_is = refl; empty = refl; is_open = refl; out = refl }))
