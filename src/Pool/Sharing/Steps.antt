-- ===== src/Pool/Sharing/Steps.antt =====
-- conn_pool.go: each step of the goroutines keeps the accounts of the pool.
use fq_client_go.Common.{
  ℕ, suc, ◌<◌, Bool, true, false, some, List, [], ◌∷◌, length, length-append, ltb, if◌then◌else◌,
  ◌≡◌, refl, ap, sym, ◌∙◌, subst, arith, Bool-cases, inl, inr,
}
use fq_client_go.Errors.{Error, sentinel, conn_pool_closed, Result, ok, err}
use fq_client_go.Net.{Env}
use fq_client_go.Tcp.{TcpClient}
use fq_client_go.Pool.{
  Target, World, Pool, new_tcp_client, taken, made, get_from, get_connection, release_connection,
  close, close_waited, close_all, Closing, finished, blocked, panicked,
}
use fq_client_go.Pool.Laws.{IsSound, get_connection-IsSound, release_connection-cases, given_back}
use fq_client_go.Pool.Sharing.{Shared, Step, IsAccounted, take_one, take_none, give, shut, use_up}

-- What a successful `GetConnection` does to the pool.
pub record Took (w v : World) : Type 0 where
  pub was_open : w.pool.closed ≡ false
  pub size_kept : v.pool.size ≡ w.pool.size
  pub closed_kept : v.pool.closed ≡ false
  pub one_more : v.pool.outstanding ≡ suc w.pool.outstanding

made-Took :
    (w v : World) (c : TcpClient) (out : Result TcpClient × Env)
    → w.pool.closed ≡ false
    → made w out ≡ (ok c, v)
    → Took w v
unfolding made
made-Took w v c (ok d, env) o h =
    subst (Took w) (ap (λ x. x.1) h)
      (record { was_open = o; size_kept = refl; closed_kept = o; one_more = refl })
made-Took w v c (err e, env) o h = grind arith

from-Took :
    (target : Target) (w v : World) (c : TcpClient) (idle : List TcpClient)
    → w.pool.closed ≡ false
    → get_from target w idle ≡ (ok c, v)
    → Took w v
unfolding get_from taken
from-Took target w v c [] o h = made-Took w v c (new_tcp_client target w.env) o h
from-Took target w v c (d ∷ rest) o h =
    subst (Took w) (ap (λ x. x.1) h)
      (record { was_open = o; size_kept = refl; closed_kept = o; one_more = refl })

pub get_connection-Took :
    (target : Target) (w v : World) (c : TcpClient) → get_connection target w ≡ (ok c, v) → Took w v
unfolding get_connection
get_connection-Took target w v c = guarded w.pool.closed refl
  where
    guarded :
        (b : Bool)
        → w.pool.closed ≡ b
        → (if b then (err (sentinel conn_pool_closed), w) else get_from target w w.pool.idle)
          ≡ (ok c, v)
        → Took w v
    guarded true o h = grind arith
    guarded false o h = from-Took target w v c w.pool.idle o h

made-fails :
    (w v : World) (e : Error) (out : Result TcpClient × Env)
    → made w out ≡ (err e, v)
    → v.pool ≡ w.pool
unfolding made
made-fails w v e (ok d, env) h = grind arith
made-fails w v e (err x, env) h = ap (λ y. y.1.pool) (sym h)

from-fails :
    (target : Target) (w v : World) (e : Error) (idle : List TcpClient)
    → get_from target w idle ≡ (err e, v)
    → v.pool ≡ w.pool
unfolding get_from taken
from-fails target w v e [] h = made-fails w v e (new_tcp_client target w.env) h
from-fails target w v e (d ∷ rest) h = grind arith

get_connection-fails :
    (target : Target) (w v : World) (e : Error)
    → get_connection target w ≡ (err e, v)
    → v.pool ≡ w.pool
unfolding get_connection
get_connection-fails target w v e h = elim (Bool-cases w.pool.closed) [
  | inl c ↦ ap (λ y. y.1.pool) (sym h ∙ chosen true c)
  | inr c ↦ from-fails target w v e w.pool.idle (sym (chosen false c) ∙ h)
]
  where
    chosen :
        (b : Bool)
        → w.pool.closed ≡ b
        → get_connection target w
          ≡ (if b then (err (sentinel conn_pool_closed), w) else get_from target w w.pool.idle)
    chosen b c =
        λ i. if c i then (err (sentinel conn_pool_closed), w) else get_from target w w.pool.idle

abbrev closed_pool : Pool → Closing → Pool
closed_pool p blocked = p
closed_pool p panicked = p
closed_pool p (finished q cs) = q

shut-pool :
    (p q : Pool) (cs : List TcpClient)
    → close p ≡ finished q cs
    → (p.outstanding ≡ 0) × (record p { idle = []; closed = true } ≡ q)
unfolding close close_waited
shut-pool p q cs h = elim (Bool-cases (ltb 0 p.outstanding)) [
  | inl b ↦ ground arith
  | inr b ↦ elim (Bool-cases p.closed) [
    | inl c ↦ ground arith
    | inr c ↦
        let closes : close p ≡ finished (record p { idle = []; closed = true }) (close_all p.idle) =
          simp (b, c) in
        (ground arith, ap (closed_pool p) (sym closes ∙ h))
  ]
]

gave :
    (c : TcpClient) (w v : World)
    → w.pool.closed ≡ false
    → release_connection c w ≡ some v
    → (given_back c w ≡ v) × (length w.pool.idle < w.pool.size)
gave c w v o h = elim (release_connection-cases c w o) [
  | inl (none_is, full) ↦ cc
  | inr (is, room) ↦ (cc, room)
]

pub Step-IsAccounted :
    (target : Target) (size : ℕ) (s t : Shared)
    → Step target s t
    → IsAccounted size s
    → IsAccounted size t
Step-IsAccounted target size _ _ (take_one w v held c h) a =
    let k = get_connection-Took target w v c h in
    record {
      sound = subst (λ out. IsSound out.1.pool) h (get_connection-IsSound target w a.sound);
      capacity = k.size_kept ∙ a.capacity;
      counted = k.one_more ∙ ap suc a.counted;
      settled = λ c. cc;
    }
Step-IsAccounted target size _ _ (take_none w v held e h) a =
    let same = sym (get_connection-fails target w v e h) in
    subst (λ p. IsAccounted size (record { world = record v { pool = p }; held = held })) same
      (record { sound = a.sound; capacity = a.capacity; counted = a.counted; settled = a.settled })
Step-IsAccounted target size _ _ (give w v held c h) a =
    let o = is_open w.pool.closed refl in
    let (same, room) = gave c w v o h in
    subst (λ x. IsAccounted size (record { world = x; held = held })) same
      (record {
        sound = record {
          room = omega (arith, length-append w.pool.idle (c ∷ []), room);
          drained = λ c. cc;
        };
        capacity = a.capacity;
        counted = omega (arith, a.counted);
        settled = λ c. cc;
      })
  where
    is_open : (b : Bool) → w.pool.closed ≡ b → w.pool.closed ≡ false
    is_open true c = ground (arith, a.settled c)
    is_open false c = c
Step-IsAccounted target size _ _ (shut w held p cs h) a =
    let (zero_out, same) = shut-pool w.pool p cs h in
    subst (λ x. IsAccounted size (record { world = record w { pool = x }; held = held })) same
      (record {
        sound = record { room = omega arith; drained = λ c. refl };
        capacity = a.capacity;
        counted = a.counted;
        settled = λ c. sym a.counted ∙ zero_out;
      })
Step-IsAccounted target size _ _ (use_up w held env) a = record {
  sound = a.sound;
  capacity = a.capacity;
  counted = a.counted;
  settled = a.settled;
}
