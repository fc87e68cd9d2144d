-- ===== src/Pool/Races/Blocks.antt =====
-- conn_pool.go: where the calls of a pool block, with their atomic parts in any order.
use fq_client_go.Common.{ℕ, ◌≡◌, refl, sym, ◌∙◌, ◌↔◌, some, get_elem?, sum}
use fq_client_go.Pool.Races.{
  sent_back, before, waited, State, Step, check_open, check_closed, receive, receive_nil, miss,
  add_received, add_missed, dial, fail_dial, done_dial, release_open, release_closed, send,
  hand_over, send_panics, done, wait, store, shut, drain_one, drain_end, Reach,
}
use fq_client_go.Pool.Races.Counted.{is_counted, Reach-IsCounted}

-- Some step takes `Close` past `wg.Wait()`.
abbrev pub CanPass : State → Type 0
CanPass s = (t : State) × Step s t × (t.closer ≡ waited)

-- Some step takes goroutine `i` past its send.
abbrev pub CanSend : State → ℕ → Type 0
CanSend s i = (t : State) × Step s t × (get_elem? t.threads i ≡ some sent_back)

passed : (s t : State) → Step s t → s.closer ≡ before → t.closer ≡ waited → s.count ≡ 0
passed s _ (wait w z) b q = z
passed s _ (check_open i g o) b q = absurd cc
passed s _ (check_closed i g o) b q = absurd cc
passed s _ (receive i c rest g e) b q = absurd cc
passed s _ (receive_nil i g e o) b q = absurd cc
passed s _ (miss i g e o) b q = absurd cc
passed s _ (add_received i c g) b q = absurd cc
passed s _ (add_missed i g) b q = absurd cc
passed s _ (dial i c g) b q = absurd cc
passed s _ (fail_dial i g) b q = absurd cc
passed s _ (done_dial i g) b q = absurd cc
passed s _ (release_open i c g o) b q = absurd cc
passed s _ (release_closed i c g o) b q = absurd cc
passed s _ (send i c g o l) b q = absurd cc
passed s _ (hand_over i j c g h z o) b q = absurd cc
passed s _ (send_panics i c g o) b q = absurd cc
passed s _ (done i g) b q = absurd cc
passed s _ (store w) b q = absurd cc
passed s _ (shut w) b q = absurd cc
passed s _ (drain_one c rest w e) b q = absurd cc
passed s _ (drain_end w e) b q = absurd cc

-- In whatever order the atomic parts of the calls run: a `Close` that has not waited yet gets past its
-- wait exactly when no goroutine is between its `Add` and its `Done`. One that holds a connection, one
-- that dials and one that is blocked in its release are all waited for.
pub wait-passes_iff :
    (size threads : ℕ) (s : State)
    → Reach size threads s
    → s.closer ≡ before
    → CanPass s ↔ (sum is_counted s.threads ≡ 0)
wait-passes_iff size threads s r b =
    let a = Reach-IsCounted size threads s r b in
    (
      λ (t, k, q). sym a.count ∙ passed s t k b q,
      λ z. (record s { closer = waited }, wait b (a.count ∙ z), refl),
    )
