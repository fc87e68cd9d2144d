-- ===== src/Pool/Sharing/Reached.antt =====
-- conn_pool.go: what holds in the states that calls reach which do not overlap.
use fq_client_go.Common.{ℕ, refl, arith}
use fq_client_go.Pool.{Target, new_connection_pool}
use fq_client_go.Pool.Sharing.{Shared, Reach, IsAccounted, start, step}
use fq_client_go.Pool.Sharing.Steps.{Step-IsAccounted}

-- When each call of the pool ends before the next begins: in every state that callers of a new pool
-- reach, by taking connections, giving them back and closing, the channel holds no more than its
-- capacity, the wait group counts the connections that are held, and a closed pool holds no connection
-- and nobody holds one of it.
pub Reach-IsAccounted :
    (target : Target) (size : ℕ) (s : Shared) → Reach target size s → IsAccounted size s
unfolding new_connection_pool
Reach-IsAccounted target size _ (start env) = record {
  sound = record { room = omega arith; drained = λ h. refl };
  capacity = refl;
  counted = refl;
  settled = λ h. refl;
}
Reach-IsAccounted target size _ (step s t r k) =
    Step-IsAccounted target size s t k (Reach-IsAccounted target size s r)
