-- ===== src/Tcp/Connect.antt =====
-- tcp_client.go: dialling, the handshake, reconnecting.
use fq_client_go.Common.{
  ℕ, ◌+◌, Option, none, some, [], ◌∷◌, ◌++◌, Bytes, codes, ◌==◌, if◌then◌else◌,
}
use fq_client_go.Errors.{
  Error, sentinel, wrap, annotate, both, corrupted_response, auth_failed, Result, ok, err,
}
use fq_client_go.Decimal.{format_uint}
use fq_client_go.Exec.{Exec, pure, raise, map_error, proceed, ◌>>=◌}
use fq_client_go.Net.{Wire, Env, Ctx, Dial, refused, connected, close_wire, next_dial, now}
use fq_client_go.Response.{Response, ResponseStatus, is_protocol_code, success, error, unknown}
use fq_client_go.Response.Readers.{HelloInfo, parse_hello_response}
use fq_client_go.Response.Protocol.{code_number, authentication_failed}
use fq_client_go.Command.{command_hello, protocol_version, space}
use fq_client_go.Tcp.{TcpClient, Session, send, connect_timeout}

-- `HELLO 1`, with the token behind ` AUTH ` where there is one.
unfoldable pub hello_request : Bytes → Bytes
hello_request [] = command_hello ++ space ∷ format_uint protocol_version
hello_request (c ∷ token) =
    command_hello ++ space ∷ (format_uint protocol_version ++ codes " AUTH " ++ c ∷ token)

unfoldable pub set_max_message_size_unsafe : ℕ → TcpClient → TcpClient
set_max_message_size_unsafe size c = record c { max_message_size = size; buffer_size = size }

-- The branch on `info.status == ResponseStatusError`. A nil error there is a success.
unfoldable pub hello_failure : Option Error → Exec Session (Unit {0})
hello_failure none = pure tt
hello_failure (some e) =
    if is_protocol_code e (code_number authentication_failed)
    then raise (both (sentinel auth_failed) e)
    else raise e

unfoldable pub accept_hello : HelloInfo → Exec Session (Unit {0})
accept_hello info s =
    if info.version == protocol_version
    then (ok tt, record s { client = set_max_message_size_unsafe info.max_message_size s.client })
    else (
      err (
          annotate (sentinel corrupted_response)
            (codes "negotiated version " ++ format_uint info.version)),
      s,
    )

unfoldable pub negotiate_status : ResponseStatus → Response HelloInfo → Exec Session (Unit {0})
negotiate_status error info = hello_failure info.err
negotiate_status success info = accept_hello info.value
negotiate_status unknown info = accept_hello info.value

unfoldable pub negotiate : Response HelloInfo → Exec Session (Unit {0})
unfolding negotiate_status
negotiate info = negotiate_status info.status info

unfoldable pub hello : Ctx → Exec Session (Unit {0})
hello ctx s =
    let request = hello_request s.client.token in
    proceed (map_error (wrap (codes "send hello")) (send ctx request s)) λ resp.
      (λ t. map_error (wrap (codes "parse hello response")) (parse_hello_response resp, t))
      >>= negotiate

-- The message of the wrapped error names the kind of the dial.
unfoldable pub dialled : Session → Dial × Env → Result Wire × Session
dialled s (refused e, env) = (
  err (wrap (if s.client.tls then codes "failed to dial tls" else codes "failed to dial") e),
  record s { env = env },
)
dialled s (connected w, env) = (ok w, record s { env = env })

unfoldable pub dial : Exec Session Wire
unfolding dialled
dial s = dialled s (next_dial s.env)

abbrev pub close_connection : Session → Session
close_connection s = record s {
  client = record s.client { connection = close_wire s.client.connection };
}

unfoldable pub hello_or_close : Result (Unit {0}) × Session → Result (Unit {0}) × Session
hello_or_close (ok u, s) = (ok u, s)
hello_or_close (err e, s) = (err e, close_connection s)

-- The handshake on the dialled connection, with a deadline of its own.
unfoldable pub establish : Wire → Exec Session (Unit {0})
unfolding hello_or_close
establish w t =
    let (start, env) = now t.env in
    let ctx : Ctx = record { deadline = some (start + connect_timeout) } in
    hello_or_close (hello ctx (record { client = record t.client { connection = w }; env = env }))

unfoldable pub connect : Exec Session (Unit {0})
unfolding establish
connect s = proceed (dial s) establish

unfoldable pub reconnect : Exec Session (Unit {0})
reconnect s = connect (close_connection s)
