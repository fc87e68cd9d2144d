-- ===== src/Tcp.antt =====
-- tcp_client.go: frames, requests on one connection, the handshake and reconnecting.
pub mod Frames
pub mod Connect
pub mod Chunked
pub mod Stream
pub mod Delivery
pub mod Dropped
pub mod Retry
pub mod Progress
pub mod Exchange
pub mod Shrink
pub mod Ends
pub mod Pooled
pub mod Reassembly
pub mod Handshake
pub mod Recovery
pub mod Attempts
pub mod Drops
use fq_client_go.Common.{
  ℕ, zero, suc, ◌+◌, ◌-◌, ◌*◌, ◌/◌, ◌%◌, ◌^◌, Bool, true, false, ◌||◌, Option, none, some, List, [],
  ◌∷◌, ◌++◌, Bytes, codes, length, take, drop, ltb, leb, ◌==◌, if◌then◌else◌, min,
}
use fq_client_go.Errors.{
  Error, sentinel, net_error, protocol, message, panic, wrap, annotate, both, error_is, Sentinel,
  eof, unexpected_eof, short_write, net_closed, conn_closed, frame_too_large, corrupted_response,
  auth_failed, context_deadline_exceeded, Result, ok, err,
}
use fq_client_go.Text.{bytes_eq, index_byte}
use fq_client_go.Decimal.{format_uint}
use fq_client_go.Exec.{Exec, pure, raise, lift, map_error, proceed, ◌>>=◌, ◌>>◌}
use fq_client_go.Net.{
  Wire, WriteStep, Env, Ctx, Dial, refused, connected, read_full, set_deadline, close_wire,
  next_dial, next_ctx_error, now,
}
use fq_client_go.Response.{
  resp_delimiter, frame_status_ok, frame_status_error, frame_status_next, Response,
  is_protocol_code, success, error, unknown,
}
use fq_client_go.Response.Readers.{HelloInfo, parse_hello_response}
use fq_client_go.Response.Protocol.{code_number, authentication_failed}
use fq_client_go.Command.{command_hello, protocol_version, space}

abbrev pub frame_header_size : ℕ
frame_header_size = 4

abbrev pub max_frame_payload_size : ℕ
max_frame_payload_size = 2 ^ 32 - 1

abbrev pub connect_timeout : ℕ
connect_timeout = 5 * 1_000_000_000

-- `binary.BigEndian.PutUint32(header, n)`
unfoldable pub put_uint32 : ℕ → Bytes
put_uint32 n = n / 2 ^ 24 % 256 ∷ n / 2 ^ 16 % 256 ∷ n / 2 ^ 8 % 256 ∷ n % 256 ∷ []

-- `binary.BigEndian.Uint32(header)`; a shorter header is an index out of range.
unfoldable pub uint32_of : Bytes → Result ℕ
uint32_of (a ∷ b ∷ c ∷ d ∷ rest) = ok (((a * 256 + b) * 256 + c) * 256 + d)
uint32_of _ = err (panic (codes "index out of range"))

abbrev pub too_large : ℕ → ℕ → Error
too_large size limit =
    annotate (sentinel frame_too_large) (format_uint size ++ codes " > " ++ format_uint limit)

-- What a call of `Write` answered: an error, no byte taken, or some.
unfoldable pub after_write :
    Option Error → ℕ → Wire → Result (Unit {0}) × Wire → Result (Unit {0}) × Wire
after_write (some e) taken v more = (err e, v)
after_write none taken v more = if taken == 0 then (err (sentinel short_write), v) else more

-- The loop of `writeAll`: a round is a call of `Write`, answered by the head of the script.
unfoldable pub write_rounds : List WriteStep → Bytes → Wire → Result (Unit {0}) × Wire
unfolding after_write
write_rounds steps [] w = (ok tt, record w { write_steps = steps })
write_rounds [] (c ∷ rest) w = (ok tt, record w { sent = w.sent ++ c ∷ rest; write_steps = [] })
write_rounds (step ∷ steps) (c ∷ rest) w =
    let taken = min step.taken (suc (length rest)) in
    let v = record w { sent = w.sent ++ take taken (c ∷ rest); write_steps = steps } in
    after_write step.failure taken v (write_rounds steps (drop taken (c ∷ rest)) v)

-- On a closed connection the first call of `Write` fails.
unfoldable pub write_all : Bytes → Exec Wire (Unit {0})
unfolding write_rounds
write_all [] w = (ok tt, w)
write_all (c ∷ rest) w =
    if w.closed then (err (sentinel net_closed), w) else write_rounds w.write_steps (c ∷ rest) w

unfoldable pub write_frame : Bytes → Exec Wire (Unit {0})
write_frame payload =
    if ltb max_frame_payload_size (length payload)
    then raise (too_large (length payload) max_frame_payload_size)
    else (do write_all (put_uint32 (length payload % 2 ^ 32)); write_all payload)

-- `messageSize > uint32(maxMessageSize)`
unfoldable pub checked_size : ℕ → ℕ → Result ℕ
checked_size size limit = if ltb (limit % 2 ^ 32) size then err (too_large size limit) else ok size

unfoldable pub read_frame_size : ℕ → Exec Wire ℕ
read_frame_size limit = do
  header ← read_full frame_header_size
  size ← lift (uint32_of header)
  lift (checked_size size limit)

-- The buffer counts by its length: `buffer[:messageSize]` is out of range beyond it, and its bytes
-- are overwritten before they are read.
unfoldable pub read_frame_into : ℕ → ℕ → Exec Wire Bytes
read_frame_into limit buffer = do
  size ← read_frame_size limit
  if ltb buffer size then raise (panic (codes "slice bounds out of range")) else read_full size

-- `errors.As(err, &netErr)`
unfoldable pub is_net_error : Error → Bool
is_net_error (sentinel net_closed) = true
is_net_error (sentinel context_deadline_exceeded) = true
is_net_error (sentinel s) = false
is_net_error (protocol c m) = false
is_net_error (net_error m) = true
is_net_error (message m) = false
is_net_error (panic m) = false
is_net_error (wrap m e) = is_net_error e
is_net_error (annotate e m) = is_net_error e
is_net_error (both a b) = is_net_error a || is_net_error b

unfoldable pub is_connection_error : Error → Bool
unfolding is_net_error
is_connection_error e =
    error_is e eof
    || error_is e unexpected_eof
    || error_is e short_write
    || error_is e net_closed
    || is_net_error e

unfoldable pub normalize_connection_error : Error → Error
normalize_connection_error e = if is_connection_error e then both (sentinel conn_closed) e else e

-- `TLSConfig` is known here only by its presence.
pub record TcpClient : Type 0 where
  pub connection : Wire
  pub address : Bytes
  pub max_message_size : ℕ
  pub idle_timeout : ℕ
  -- the size of the buffers of `bufferPool`
  pub buffer_size : ℕ
  pub token : Bytes
  pub tls : Bool

-- One client and what surrounds it.
pub record Session : Type 0 where
  pub client : TcpClient
  pub env : Env

-- A call on the connection, whose error is normalised.
unfoldable pub on_connection : {A : Type 0} → Exec Wire A → Exec Session A
on_connection step s =
    let (r, wire) = step s.client.connection in
    map_error normalize_connection_error
      (r, record s { client = record s.client { connection = wire } })

-- The earlier of the idle deadline and the context's.
unfoldable pub deadline : ℕ → ℕ → Ctx → ℕ
deadline time idle ctx = elim ctx.deadline [
  | none ↦ time + idle
  | some d ↦ if ltb (time + idle) d then time + idle else d
]

-- `c.connection.SetDeadline(c.deadline(ctx))`
unfoldable pub arm : Ctx → Exec Session (Unit {0})
arm ctx s =
    let (time, env) = now s.env in
    on_connection (set_deadline (deadline time s.client.idle_timeout ctx)) (record s { env = env })

-- `len(request) > c.maxMessageSize`
unfoldable pub check_request : Bytes → Exec Session (Unit {0})
check_request request s =
    if ltb s.client.max_message_size (length request)
    then (
      err (
          message (
            codes "request exceeds max message size ("
            ++ format_uint s.client.max_message_size
            ++ codes ")")),
      s,
    )
    else (ok tt, s)

unfoldable pub receive : Exec Session Bytes
receive s = on_connection (read_frame_into s.client.max_message_size s.client.buffer_size) s

unfoldable pub send : Ctx → Bytes → Exec Session Bytes
send ctx request = do check_request request; arm ctx; on_connection (write_frame request); receive
