-- ===== src/Examples/Races.antt =====
-- Goroutines that are stopped inside the calls of a pool.
use fq_client_go.Common.{◌≡◌, ◌↔◌, refl, some, none, [], ◌∷◌, get_elem?, set, sum}
use fq_client_go.Tcp.{TcpClient}
use fq_client_go.Pool.Races.{
  outside, checked, missed, dialling, holding, sending, State, new_pool, moved, check_open, miss,
  add_missed, dial, release_open, Reach, start, step,
}
use fq_client_go.Pool.Races.Blocks.{CanPass, wait-passes_iff}
use fq_client_go.Examples.Wires.{wire_with, client_on}
use fq_client_go.Pool.Races.Counted.{is_counted, IsCounted, Reach-IsCounted, holding_nil-Reach}

abbrev one_checked : State
one_checked = moved (new_pool 1 2) 0 checked

one_checked-Reach : Reach 1 2 one_checked
unfolding new_pool
one_checked-Reach = step (new_pool 1 2) one_checked start (check_open 0 refl refl)

Reach-IsCounted_example : IsCounted 1 one_checked
unfolding new_pool
Reach-IsCounted_example = Reach-IsCounted 1 2 one_checked one_checked-Reach refl

holding_nil-Reach_example :
    (s : State) × Reach 1 2 s × (get_elem? s.threads 0 ≡ some (holding none))
holding_nil-Reach_example = holding_nil-Reach 1 1

-- Behind a dial, before the send of the release.
abbrev spare : TcpClient
spare = client_on (wire_with [])

abbrev one_sending : State
one_sending = record (new_pool 1 2) { count = 1; threads = sending (some spare) ∷ outside ∷ [] }

one_sending-Reach : Reach 1 2 one_sending
unfolding new_pool
one_sending-Reach =
    let s2 = moved one_checked 0 missed in
    let s3 : State = record s2 { count = 1; threads = set s2.threads 0 dialling } in
    let s4 = moved s3 0 (holding (some spare)) in
    let r2 : Reach 1 2 s2 = step one_checked s2 one_checked-Reach (miss 0 refl refl refl) in
    let r3 : Reach 1 2 s3 = step s2 s3 r2 (add_missed 0 refl) in
    let r4 : Reach 1 2 s4 = step s3 s4 r3 (dial 0 spare refl) in
    step s4 one_sending r4 (release_open 0 (some spare) refl refl)

wait-passes_iff_example : CanPass one_sending ↔ (sum is_counted one_sending.threads ≡ 0)
unfolding new_pool
wait-passes_iff_example = wait-passes_iff 1 2 one_sending one_sending-Reach refl
