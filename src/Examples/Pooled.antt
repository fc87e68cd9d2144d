-- ===== src/Examples/Pooled.antt =====
-- Calls over pooled buffers.
use fq_client_go.Common.{ℕ, ◌+◌, none, some, [], ◌++◌, codes, refl}
use fq_client_go.Buffers.Laws.{new_bytes_pool-IsClean}
use fq_client_go.Buffers.{new_bytes_pool}
use fq_client_go.Common.{Bytes}
use fq_client_go.Tcp.{Session, send}
use fq_client_go.Tcp.Frames.{frame}
use fq_client_go.Tcp.Chunked.{send_chunked}
use fq_client_go.Tcp.Stream.{Handler, stream}
use fq_client_go.Tcp.Pooled.{Pooled, send_pooled, send_chunked_pooled, stream_pooled}
use fq_client_go.Tcp.Pooled.Refinement.{HasBuffers, Refines}
use fq_client_go.Tcp.Pooled.Calls.{
  send_pooled-Refines, send_chunked_pooled-Refines, EndsAlike, stream_pooled-EndsAlike,
}
use fq_client_go.Examples.Wires.{wire_with, no_deadline, session_on}

-- Two responses arrive; the pool of the buffers is new.
abbrev answered : Session
answered = session_on (wire_with (frame (codes "ok|5") ++ frame (codes "ok|6"))) []

abbrev pooled : Pooled
pooled = record { session = answered; pool = new_bytes_pool 4096 }

pooled-HasBuffers : HasBuffers pooled
unfolding new_bytes_pool
pooled-HasBuffers = record { clean = new_bytes_pool-IsClean 4096; size = refl }

send_pooled-Refines_example :
    Refines
      (send_pooled none no_deadline (codes "GET k 60") pooled)
      (send no_deadline (codes "GET k 60") answered)
send_pooled-Refines_example =
    send_pooled-Refines none no_deadline (codes "GET k 60") pooled pooled-HasBuffers

send_chunked_pooled-Refines_example :
    Refines
      (send_chunked_pooled (some 0) no_deadline (codes "INSPECT") pooled)
      (send_chunked no_deadline (codes "INSPECT") answered)
send_chunked_pooled-Refines_example =
    send_chunked_pooled-Refines (some 0) no_deadline (codes "INSPECT") pooled pooled-HasBuffers

-- Counts the frames.
abbrev count : Handler ℕ Bytes
count frame n = (none, n + 1)

stream_pooled-EndsAlike_example :
    EndsAlike
      (stream_pooled count none no_deadline (codes "STREAM") pooled 0)
      (stream count no_deadline (codes "STREAM") answered 0)
stream_pooled-EndsAlike_example =
    stream_pooled-EndsAlike count none no_deadline (codes "STREAM") pooled 0 pooled-HasBuffers
