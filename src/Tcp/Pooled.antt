-- ===== src/Tcp/Pooled.antt =====
-- tcp_client.go: the calls with the buffer that the response is read into, out of the client's pool
-- and back. The bytes of an earlier response may still stand in it.
pub mod Reads
pub mod Refinement
pub mod Calls
use fq_client_go.Common.{
  ℕ, zero, suc, Bool, Option, none, some, List, [], ◌∷◌, Bytes, codes, length, take, ltb,
  if◌then◌else◌,
}
use fq_client_go.Errors.{Error, panic, message, Result, ok, err}
use fq_client_go.Exec.{Exec, ◌>>=◌, ◌>>◌}
use fq_client_go.Net.{Wire, Ctx, read_full}
use fq_client_go.Buffers.{BytesPool, get_bytes, put_bytes, copy}
use fq_client_go.Tcp.{
  TcpClient, Session, check_request, arm, on_connection, write_frame, read_frame_size,
  normalize_connection_error,
}
use fq_client_go.Tcp.Chunked.{chunk_step, rounds, or_stuck}
use fq_client_go.Tcp.Stream.{Handler, frame_step}

-- What a read leaves: its result, the buffer, the connection.
abbrev pub Read : Type 0
Read = Result Bytes × Bytes × Wire

-- Of a read that fails, what had arrived stands in the buffer.
unfoldable pub filled : Bytes → ℕ → Wire → Result Bytes × Wire → Read
unfolding copy
filled buffer n w (ok got, v) = (ok (take n (copy buffer got)), copy buffer got, v)
filled buffer n w (err e, v) = (err e, (if w.closed then buffer else copy buffer w.inbox), v)

-- `io.ReadFull(conn, buffer[:n])`, and the slice that was read.
unfoldable pub read_full_into : Bytes → ℕ → Wire → Read
unfolding filled
read_full_into buffer n w = filled buffer n w (read_full n w)

unfoldable pub sized : Bytes → Result ℕ × Wire → Read
unfolding read_full_into
sized buffer (err e, v) = (err e, buffer, v)
sized buffer (ok n, v) =
    if ltb (length buffer) n
    then (err (panic (codes "slice bounds out of range")), buffer, v)
    else read_full_into buffer n v

-- `readFrameInto`
unfoldable pub read_frame_into_buffer : ℕ → Bytes → Wire → Read
unfolding sized
read_frame_into_buffer limit buffer w = sized buffer (read_frame_size limit w)

-- A client while its call holds a buffer.
pub record Held : Type 0 where
  pub session : Session
  pub buffer : Bytes

-- A client with its pool.
pub record Pooled : Type 0 where
  pub session : Session
  pub pool : BytesPool

unfoldable pub normalized : {A : Type 0} → Result A → Result A
normalized (ok a) = ok a
normalized (err e) = err (normalize_connection_error e)

unfoldable pub after_read : Held → Read → Result Bytes × Held
unfolding normalized
after_read h (r, buffer, wire) = (
  normalized r,
  record {
    session = record h.session { client = record h.session.client { connection = wire } };
    buffer = buffer;
  },
)

-- The message is copied out of the buffer.
unfoldable pub receive_held : Exec Held Bytes
unfolding after_read read_frame_into_buffer
receive_held h =
    after_read h (
      read_frame_into_buffer h.session.client.max_message_size h.buffer h.session.client.connection)

unfoldable pub keep_held : {A : Type 0} → Bytes → Result A × Session → Result A × Held
keep_held buffer (r, s) = (r, record { session = s; buffer = buffer })

unfoldable pub on_held : {A : Type 0} → Exec Session A → Exec Held A
unfolding keep_held
on_held step h = keep_held h.buffer (step h.session)

unfoldable pub keep_pool : {A : Type 0} → BytesPool → Result A × Session → Result A × Pooled
keep_pool pool (r, s) = (r, record { session = s; pool = pool })

unfoldable pub on_session : {A : Type 0} → Exec Session A → Exec Pooled A
unfolding keep_pool
on_session step p = keep_pool p.pool (step p.session)

-- `defer c.bufferPool.Put(response)`
unfoldable pub put_back : {A : Type 0} → BytesPool → Result A × Held → Result A × Pooled
unfolding put_bytes
put_back pool (r, h) = (r, record { session = h.session; pool = put_bytes h.buffer pool })

unfoldable pub with_response : {A : Type 0} → Option ℕ → Exec Held A → Exec Pooled A
unfolding put_back get_bytes
with_response choice body p =
    let (buffer, rest) = get_bytes choice p.pool in
    put_back rest (body (record { session = p.session; buffer = buffer }))

-- What all three calls do before they read.
unfoldable pub write_request : Ctx → Bytes → Exec Session (Unit {0})
write_request ctx request = do check_request request; arm ctx; on_connection (write_frame request)

unfoldable pub send_pooled : Option ℕ → Ctx → Bytes → Exec Pooled Bytes
unfolding on_session write_request with_response receive_held
send_pooled choice ctx request = do
  on_session (write_request ctx request)
  with_response choice receive_held

unfoldable pub receive_round : Ctx → Exec Held Bytes
unfolding on_held receive_held
receive_round ctx = do on_held (arm ctx); receive_held

unfoldable pub chunks_held : ℕ → Ctx → Bytes → Held → Option (Result Bytes × Held)
unfolding receive_round
chunks_held zero ctx body h = none
chunks_held (suc fuel) ctx body h =
    chunk_step body (receive_round ctx h) (λ grown t. chunks_held fuel ctx grown t)

unfoldable pub chunks_pooled : Ctx → Exec Held Bytes
unfolding chunks_held
chunks_pooled ctx h =
    or_stuck (chunks_held (rounds h.session) ctx [] h) (err (message (codes "out of fuel")), h)

unfoldable pub send_chunked_pooled : Option ℕ → Ctx → Bytes → Exec Pooled Bytes
unfolding on_session write_request with_response chunks_pooled
send_chunked_pooled choice ctx request = do
  on_session (write_request ctx request)
  with_response choice (chunks_pooled ctx)

module _ {H : Type 0} (handle : Handler H Bytes) where
  unfoldable pub frames_held : ℕ → Ctx → Held → H → Option (Error × Held × H)
  unfolding receive_round
  frames_held zero ctx h g = none
  frames_held (suc fuel) ctx h g =
      frame_step handle (receive_round ctx h) g (λ t k. frames_held fuel ctx t k)

  unfoldable pub put_ended : BytesPool → Error × Held × H → Error × Pooled × H
  put_ended pool (e, h, g) = (e, record { session = h.session; pool = put_bytes h.buffer pool }, g)

  unfoldable pub begun_pooled : Option ℕ → Ctx → Result (Unit {0}) × Pooled → H → Error × Pooled × H
  unfolding put_ended frames_held
  begun_pooled choice ctx (err e, p) g = (e, p, g)
  begun_pooled choice ctx (ok _, p) g =
      let (buffer, rest) = get_bytes choice p.pool in
      let held : Held = record { session = p.session; buffer = buffer } in
      put_ended rest (
        or_stuck (frames_held (rounds p.session) ctx held g)
          (message (codes "out of fuel"), held, g))

  unfoldable pub stream_pooled : Option ℕ → Ctx → Bytes → Pooled → H → Error × Pooled × H
  unfolding on_session write_request begun_pooled
  stream_pooled choice ctx request p g =
      begun_pooled choice ctx (on_session (write_request ctx request) p) g
