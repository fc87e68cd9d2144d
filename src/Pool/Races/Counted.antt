-- ===== src/Pool/Races/Counted.antt =====
-- conn_pool.go: what the wait group counts until `Close` has waited for it, and what a `Close` does to
-- a `GetConnection` that is under way.
use fq_client_go.Common.{
  ℕ, suc, ◌+◌, ◌-◌, ◌≤◌, ◌≡◌, refl, ap, sym, ◌∙◌, subst, ◌==◌, Bool-cases, inl, inr, set-other,
  arith, Bool, true, false, Option, none, some, List, [], ◌∷◌, ◌++◌, length, length-append,
  get_elem?, set, sum, sum-set, sum-replicate, All, All-set, All-get_elem?, All-replicate,
}
use fq_client_go.Tcp.{TcpClient}
use fq_client_go.Pool.Races.{
  Thread, outside, checked, received, missed, dialling, dial_failed, holding, sending, sent_back,
  panicked, before, waited, stored, draining, finished, State, new_pool, moved, Step, check_open,
  check_closed, receive, receive_nil, miss, add_received, add_missed, dial, fail_dial, done_dial,
  release_open, release_closed, send, hand_over, send_panics, done, wait, store, shut, drain_one,
  drain_end, Reach, start, step,
}

-- Between its `wg.Add(1)` and its `wg.Done()`.
abbrev pub is_counted : Thread → ℕ
is_counted outside = 0
is_counted checked = 0
is_counted (received c) = 0
is_counted missed = 0
is_counted dialling = 1
is_counted dial_failed = 1
is_counted (holding c) = 1
is_counted (sending c) = 1
is_counted sent_back = 1
is_counted panicked = 0

-- No nil connection, and no panic.
abbrev pub is_sane : Thread → Bool
is_sane outside = true
is_sane checked = true
is_sane (received none) = false
is_sane (received (some c)) = true
is_sane missed = true
is_sane dialling = true
is_sane dial_failed = true
is_sane (holding none) = false
is_sane (holding (some c)) = true
is_sane (sending none) = false
is_sane (sending (some c)) = true
is_sane sent_back = true
is_sane panicked = false

pub record IsCounted (size : ℕ) (s : State) : Type 0 where
  pub still_open : s.closed ≡ false
  pub channel_open : s.channel_closed ≡ false
  pub count : s.count ≡ sum is_counted s.threads
  pub sane : All (λ t. is_sane t ≡ true) s.threads
  pub capacity : s.size ≡ size
  pub room : length s.channel ≤ size

module _ (size : ℕ) (s : State) (a : IsCounted size s) where
  -- A step of one goroutine, with the channel and the count behind it.
  moved-IsCounted :
      (i : ℕ) (t u : Thread) (channel : List TcpClient) (count : ℕ)
      → get_elem? s.threads i ≡ some t
      → is_sane u ≡ true
      → count + is_counted t ≡ s.count + is_counted u
      → length channel ≤ size
      → IsCounted size (record s { channel = channel; count = count; threads = set s.threads i u })
  moved-IsCounted i t u channel count g n c l = record {
    still_open = a.still_open;
    channel_open = a.channel_open;
    count = omega (arith, c, a.count, sum-set is_counted s.threads i t u g);
    sane = All-set (λ t. is_sane t ≡ true) s.threads i u a.sane n;
    capacity = a.capacity;
    room = l;
  }

  -- Of the threads that are counted, one is.
  positive : (i : ℕ) (t : Thread) → get_elem? s.threads i ≡ some t → is_counted t ≤ s.count
  positive i t g = omega (arith, a.count, sum-set is_counted s.threads i t outside g)

  sane_one : (i : ℕ) (t : Thread) → get_elem? s.threads i ≡ some t → is_sane t ≡ true
  sane_one i t g = All-get_elem? (λ t. is_sane t ≡ true) s.threads i t a.sane g

  got-IsCounted :
      (i : ℕ) (c : Option TcpClient)
      → get_elem? s.threads i ≡ some (received c)
      → IsCounted size (record s { count = suc s.count; threads = set s.threads i (holding c) })
  got-IsCounted i none g = absurd (let x = sane_one i (received none) g in cc)
  got-IsCounted i (some c) g =
      moved-IsCounted i (received (some c)) (holding (some c)) s.channel (suc s.count) g refl
        (omega arith) a.room

  handed-IsCounted :
      (i j : ℕ) (c : TcpClient)
      → get_elem? s.threads i ≡ some (sending (some c))
      → get_elem? s.threads j ≡ some checked
      → IsCounted size
          (record s { threads = set (set s.threads i sent_back) j (received (some c)) })
  handed-IsCounted i j c g h = record {
    still_open = a.still_open;
    channel_open = a.channel_open;
    count = omega (
      arith,
      a.count,
      sum-set is_counted s.threads i (sending (some c)) sent_back g,
      sum-set is_counted (set s.threads i sent_back) j checked (received (some c)) there,
    );
    sane =
        All-set (λ t. is_sane t ≡ true) (set s.threads i sent_back) j (received (some c))
          (All-set (λ t. is_sane t ≡ true) s.threads i sent_back a.sane refl) refl;
    capacity = a.capacity;
    room = a.room;
  }
    where
      there : get_elem? (set s.threads i sent_back) j ≡ some checked
      there = elim (Bool-cases (i == j)) [
        | inl e ↦
            let same : i ≡ j = ground arith in
            let x = subst (λ k. get_elem? s.threads k ≡ some (sending (some c))) same g in
            absurd (let y : some (sending (some c)) ≡ some checked = sym x ∙ h in cc)
        | inr e ↦ set-other s.threads i j sent_back (ground arith) ∙ h
      ]

  releasing-IsCounted :
      (i : ℕ) (c : Option TcpClient)
      → get_elem? s.threads i ≡ some (holding c)
      → IsCounted size (moved s i (sending c))
  releasing-IsCounted i none g = absurd (let x = sane_one i (holding none) g in cc)
  releasing-IsCounted i (some c) g =
      moved-IsCounted i (holding (some c)) (sending (some c)) s.channel s.count g refl (omega arith)
        a.room

Step-IsCounted :
    (size : ℕ) (s t : State)
    → Step s t
    → (s.closer ≡ before → IsCounted size s)
    → t.closer ≡ before
    → IsCounted size t
Step-IsCounted size s _ (check_open i g o) k b =
    moved-IsCounted size s (k b) i outside checked s.channel s.count g refl (omega arith) (k b).room
Step-IsCounted size s _ (check_closed i g o) k b =
    moved-IsCounted size s (k b) i outside outside s.channel s.count g refl (omega arith) (k b).room
Step-IsCounted size s _ (receive i c rest g q) k b =
    moved-IsCounted size s (k b) i checked (received (some c)) rest s.count g refl (omega arith)
      (omega (arith, (k b).room, ap length q))
Step-IsCounted size s _ (receive_nil i g q o) k b = absurd (let x = (k b).channel_open in cc)
Step-IsCounted size s _ (miss i g q o) k b =
    moved-IsCounted size s (k b) i checked missed s.channel s.count g refl (omega arith) (k b).room
Step-IsCounted size s _ (add_received i c g) k b = got-IsCounted size s (k b) i c g
Step-IsCounted size s _ (add_missed i g) k b =
    moved-IsCounted size s (k b) i missed dialling s.channel (suc s.count) g refl (omega arith)
      (k b).room
Step-IsCounted size s _ (dial i c g) k b =
    moved-IsCounted size s (k b) i dialling (holding (some c)) s.channel s.count g refl
      (omega arith) (k b).room
Step-IsCounted size s _ (fail_dial i g) k b =
    moved-IsCounted size s (k b) i dialling dial_failed s.channel s.count g refl (omega arith)
      (k b).room
Step-IsCounted size s _ (done_dial i g) k b =
    moved-IsCounted size s (k b) i dial_failed outside s.channel (s.count - 1) g refl
      (omega (arith, positive size s (k b) i dial_failed g)) (k b).room
Step-IsCounted size s _ (release_open i c g o) k b = releasing-IsCounted size s (k b) i c g
Step-IsCounted size s _ (release_closed i c g o) k b = absurd (let x = (k b).still_open in cc)
Step-IsCounted size s _ (send i c g o l) k b =
    moved-IsCounted size s (k b) i (sending (some c)) sent_back (s.channel ++ c ∷ []) s.count g refl
      (omega arith) (omega (arith, (k b).capacity, length-append s.channel (c ∷ [])))
Step-IsCounted size s _ (hand_over i j c g h z o) k b = handed-IsCounted size s (k b) i j c g h
Step-IsCounted size s _ (send_panics i c g o) k b = absurd (let x = (k b).channel_open in cc)
Step-IsCounted size s _ (done i g) k b =
    moved-IsCounted size s (k b) i sent_back outside s.channel (s.count - 1) g refl
      (omega (arith, positive size s (k b) i sent_back g)) (k b).room
Step-IsCounted size s _ (wait w z) k b = absurd cc
Step-IsCounted size s _ (store w) k b = absurd cc
Step-IsCounted size s _ (shut w) k b = absurd cc
Step-IsCounted size s _ (drain_one c rest w q) k b = absurd cc
Step-IsCounted size s _ (drain_end w q) k b = absurd cc

-- In whatever order the atomic parts of the calls run, until `Close` has waited: the count of the
-- wait group is the number of goroutines between their `Add` and their `Done`, no goroutine was given
-- a nil connection or has panicked, and the channel is within its capacity.
pub Reach-IsCounted :
    (size threads : ℕ) (s : State) → Reach size threads s → s.closer ≡ before → IsCounted size s
unfolding new_pool
Reach-IsCounted size threads _ start b = record {
  still_open = refl;
  channel_open = refl;
  count = omega (arith, sum-replicate is_counted threads outside);
  sane = All-replicate (λ t. is_sane t ≡ true) threads outside refl;
  capacity = refl;
  room = omega arith;
}
Reach-IsCounted size threads _ (step s t r k) b =
    Step-IsCounted size s t k (λ c. Reach-IsCounted size threads s r c) b

-- A pool of any size that at least one goroutine uses can reach a state in which that goroutine
-- holds a nil connection, which `GetConnection` returned without an error: `Close` ran between its
-- test of `closed` and its select.
pub holding_nil-Reach :
    (size others : ℕ)
    → (s : State) × Reach size (suc others) s × (get_elem? s.threads 0 ≡ some (holding none))
unfolding new_pool
holding_nil-Reach size others =
    let s0 = new_pool size (suc others) in
    let s1 = moved s0 0 checked in
    let s2 : State = record s1 { closer = waited } in
    let s3 : State = record s2 { closed = true; closer = stored } in
    let s4 : State = record s3 { channel_closed = true; closer = draining } in
    let s5 : State = record s4 { closer = finished } in
    let s6 = moved s5 0 (received none) in
    let s7 : State = record s6 { count = 1; threads = set s6.threads 0 (holding none) } in
    let r1 : Reach size (suc others) s1 = step s0 s1 start (check_open 0 refl refl) in
    let r2 : Reach size (suc others) s2 = step s1 s2 r1 (wait refl refl) in
    let r3 : Reach size (suc others) s3 = step s2 s3 r2 (store refl) in
    let r4 : Reach size (suc others) s4 = step s3 s4 r3 (shut refl) in
    let r5 : Reach size (suc others) s5 = step s4 s5 r4 (drain_end refl refl) in
    let r6 : Reach size (suc others) s6 = step s5 s6 r5 (receive_nil 0 refl refl refl) in
    let r7 : Reach size (suc others) s7 = step s6 s7 r6 (add_received 0 none refl) in (s7, r7, refl)
