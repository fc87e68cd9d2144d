-- ===== src/Sharded/Opened.antt =====
-- sharded_client.go: what `NewSharded` leaves open, and what it closes.
use fq_client_go.Common.{
  ℕ, suc, ◌≡◌, ◌≢◌, refl, ap, sym, ◌∙◌, arith, true, Option, none, some, List, [], ◌∷◌, ◌++◌,
  append_assoc, append-nil, Bytes, length, length-append, All, All-append,
}
use fq_client_go.Errors.{Error, sentinel, no_shards, nil_sharding_func, Result}
use fq_client_go.Net.{Env}
use fq_client_go.Options.{ClientOption}
use fq_client_go.Tcp.{TcpClient}
use fq_client_go.Pool.{World, Pool, Closing, finished, close, close_waited, close_all, close_client}
use fq_client_go.Client.New.{client_target}
use fq_client_go.Client.Opening.{Full, Opened, not_opened, is_full, new_client-Opened}
use fq_client_go.Sharded.{ShardingFunc}
use fq_client_go.Sharded.Open.{
  create_failed, Client, Start, not_started, started, close_next, close_shards, shard_opened,
  open_shards, new_sharded,
}

-- A pool that was closed, with its `size` connections, each closed.
pub data IsClosed (size : ℕ) : Closing → Type 0 where
  closed_all :
      (p : Pool) (cs : List TcpClient)
      → length cs ≡ size
      → All (λ c. c.connection.closed ≡ true) cs
      → IsClosed size (finished p cs)

length-close_all : (cs : List TcpClient) → length (close_all cs) ≡ length cs
unfolding close_all
length-close_all [] = refl
length-close_all (c ∷ cs) = ap suc (length-close_all cs)

close_all-closed : (cs : List TcpClient) → All (λ c. c.connection.closed ≡ true) (close_all cs)
unfolding close_all close_client
close_all-closed [] = tt
close_all-closed (c ∷ cs) = (refl, close_all-closed cs)

close-Full : (size : ℕ) (p : Pool) → Full size p → IsClosed size (close p)
unfolding close close_waited
close-Full size p f =
    simp (f.none_out, f.is_open)
      (closed_all _ _ (length-close_all p.idle ∙ f.all_idle) (close_all-closed p.idle))

close_shards-IsClosed :
    (size : ℕ) (shards : List Client)
    → All (λ c. Full size c.pool) shards
    → All (IsClosed size) (close_shards shards) × (length (close_shards shards) ≡ length shards)
unfolding close_shards close_next
close_shards-IsClosed size [] h = (tt, refl)
close_shards-IsClosed size (c ∷ cs) (h, hs) =
    let (rest, l) = close_shards-IsClosed size cs hs in
    next (close c.pool) (close-Full size c.pool h) rest l
  where
    next :
        (o : Closing)
        → IsClosed size o
        → All (IsClosed size) (close_shards cs)
        → length (close_shards cs) ≡ length cs
        → All (IsClosed size) (close_next o (close_shards cs))
          × (length (close_next o (close_shards cs)) ≡ suc (length cs))
    next _ (closed_all p ds n k) rest l = ((closed_all p ds n k, rest), ap suc l)

-- How `NewSharded` ends. A failure at one address leaves no shard open: those of the addresses before
-- it were closed, each with all its connections.
pub data Settled (size : ℕ) (addresses : List Bytes) (sharding_func : Option ShardingFunc)
    : Start → Type 0 where
  no_addresses :
      (env : Env)
      → addresses ≡ []
      → Settled size addresses sharding_func (not_started (sentinel no_shards) [] env)
  no_function :
      (env : Env)
      → sharding_func ≡ none
      → Settled size addresses sharding_func (not_started (sentinel nil_sharding_func) [] env)
  all_open :
      (shards : List Client) (env : Env)
      → addresses ≢ []
      → sharding_func ≢ none
      → length shards ≡ length addresses
      → All (λ c. Full size c.pool) shards
      → Settled size addresses sharding_func (started shards env)
  all_closed :
      (front back : List Bytes) (address : Bytes) (e : Error) (closings : List Closing) (env : Env)
      → sharding_func ≢ none
      → addresses ≡ front ++ address ∷ back
      → length closings ≡ length front
      → All (IsClosed size) closings
      → Settled size addresses sharding_func (not_started (create_failed address e) closings env)

module _ (idle_timeout size : ℕ) (opts : List (Option ClientOption)) (total : List Bytes)
    (sharding_func : Option ShardingFunc) (some_address : total ≢ [])
    (some_function : sharding_func ≢ none) where
  -- The loop, behind the addresses of `front`, ended.
  abbrev LoopEnds : List Bytes → List Client → Env → Type 0
  LoopEnds addresses shards env =
      (r : Start) × (open_shards idle_timeout size opts addresses shards env ≡ some r)
      × Settled size total sharding_func r

  shard_opened-Settled :
      (front addresses : List Bytes) (address : Bytes) (shards : List Client)
      (r : Result (Unit {0}) × World)
      → total ≡ front ++ address ∷ addresses
      → length shards ≡ length front
      → All (λ c. Full size c.pool) shards
      → Opened size r
      → ((c : Client) (later : Env)
          → Full size c.pool
          → LoopEnds addresses (shards ++ c ∷ []) later)
      → (s : Start) × (shard_opened
            (client_target address idle_timeout opts)
            address
            shards
            (some r)
            (λ more later. open_shards idle_timeout size opts addresses more later)
          ≡ some s)
        × Settled size total sharding_func s
  unfolding shard_opened
  shard_opened-Settled front addresses address shards _ q l h (not_opened e w) next =
      let (closed, n) = close_shards-IsClosed size shards h in
      (
        _,
        refl,
        all_closed front addresses address e (close_shards shards) w.env some_function q (n ∙ l)
            closed,
      )
  shard_opened-Settled front addresses address shards _ q l h (is_full w full) next =
      next (record { target = client_target address idle_timeout opts; pool = w.pool }) w.env full

  open_shards-Settled :
      (addresses front : List Bytes) (shards : List Client) (env : Env)
      → total ≡ front ++ addresses
      → length shards ≡ length front
      → All (λ c. Full size c.pool) shards
      → LoopEnds addresses shards env
  unfolding open_shards shard_opened
  open_shards-Settled [] front shards env q l h = (
    started shards env,
    refl,
    all_open shards env some_address some_function
        (l ∙ ap length (sym (append-nil front)) ∙ ap length (sym q)) h,
  )
  open_shards-Settled (address ∷ addresses) front shards env q l h =
      let (r, e, o) = new_client-Opened address idle_timeout size opts env in
      let (s, f, k) = shard_opened-Settled front addresses address shards r q l h o λ c later full.
        open_shards-Settled addresses (front ++ address ∷ []) (shards ++ c ∷ []) later
          (q ∙ sym (append_assoc front (address ∷ []) addresses))
          (omega (arith, l, length-append shards (c ∷ []), length-append front (address ∷ [])))
          (All-append (λ (c : Client). Full size c.pool) shards (c ∷ []) h (full, tt)) in
      (
        s,
        ap
              (λ (x : Option (Result (Unit {0}) × World)).
                shard_opened (client_target address idle_timeout opts) address shards x
                  (λ more later. open_shards idle_timeout size opts addresses more later))
              e
            ∙ f,
        k,
      )

-- `NewSharded` returns, however the network behaves. Without addresses, or without a sharding function,
-- it opens nothing and returns the error that says so. Else it returns one full pool for each address,
-- of which nothing is out; or the error of one address, and then the shards of all addresses before that one, and no
-- others, were closed, each with all its connections.
pub new_sharded-Settled :
    (idle_timeout size : ℕ) (opts : List (Option ClientOption)) (addresses : List Bytes)
    (sharding_func : Option ShardingFunc) (env : Env)
    → (r : Start) × (new_sharded idle_timeout size opts addresses sharding_func env ≡ some r)
      × Settled size addresses sharding_func r
unfolding new_sharded
new_sharded-Settled idle_timeout size opts [] f env = (_, refl, no_addresses env refl)
new_sharded-Settled idle_timeout size opts (a ∷ rest) none env = (_, refl, no_function env refl)
new_sharded-Settled idle_timeout size opts (a ∷ rest) (some f) env =
    open_shards-Settled idle_timeout size opts (a ∷ rest) (some f) (λ x. cc) (λ x. cc) (a ∷ rest) []
      [] env refl refl tt
