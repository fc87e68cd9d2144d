-- ===== src/Client/Streams.antt =====
-- client.go: the methods that stay on one connection and hand event after event to the caller.
use fq_client_go.Common.{
  ℕ, zero, suc, Bool, true, false, Option, none, some, [], Bytes, codes, length,
}
use fq_client_go.Errors.{
  Error, sentinel, wrap, message, error_is, conn_closed, unknown_resp_status, Result, ok, err,
}
use fq_client_go.Net.{Ctx}
use fq_client_go.Types.{LimitEvent, QuotaEvent}
use fq_client_go.Response.{Response, unknown, success, error}
use fq_client_go.Response.Readers.{parse_limit_event_response, parse_quota_event_response}
use fq_client_go.Command.{
  command_stream, command_pstream, command_qstream, command_qpstream, write_prefix_command,
}
use fq_client_go.Tcp.{TcpClient, Session}
use fq_client_go.Tcp.Connect.{reconnect}
use fq_client_go.Tcp.Chunked.{or_stuck}
use fq_client_go.Tcp.Stream.{Handler, stream}
use fq_client_go.Tcp.Retry.{ctx_error, max_reconnect_attempts}
use fq_client_go.Pool.{Target, World, Pool, get_connection, release_connection}

-- The switch on the status of an event.
unfoldable pub on_event : {H A : Type 0} → Handler H A → Response A → H → Option Error × H
on_event handle r h = elim r.status [
  | success ↦ handle r.value h
  | error ↦ (r.err, h)
  | unknown ↦ (some (sentinel unknown_resp_status), h)
]

-- The function that `conn.Stream` is given.
unfoldable pub event_handler :
    {H A : Type 0} → (Bytes → Result (Response A)) → Handler H A → Handler H Bytes
unfolding on_event
event_handler parse handle response h = elim (parse response) [
  | ok r ↦ on_event handle r h
  | err e ↦ (some (wrap (codes "parse response") e), h)
]

-- What the loop of reconnects comes to: the context is done, the attempts are used up, or the
-- connection is back.
pub data Attempt : Type 0 where
  cancelled : Error → Attempt
  gave_up : Error → Attempt
  back : Attempt

-- Behind the loop: `reconnectErr`, or nil.
unfoldable pub attempts_over : Option Error → Attempt
attempts_over none = back
attempts_over (some e) = gave_up e

unfoldable pub on_ctx : Option Error × Session → (Session → Attempt × Session) → Attempt × Session
on_ctx (some e, t) go_on = (cancelled e, t)
on_ctx (none, t) go_on = go_on t

unfoldable pub on_reconnect :
    Result (Unit {0}) × Session → (Error → Session → Attempt × Session) → Attempt × Session
on_reconnect (ok _, u) again = (back, u)
on_reconnect (err e, u) again = again e u

unfoldable pub reconnect_attempts : ℕ → Option Error → Session → Attempt × Session
unfolding attempts_over on_ctx on_reconnect
reconnect_attempts zero last s = (attempts_over last, s)
reconnect_attempts (suc left) last s =
    on_ctx (ctx_error s) λ t. on_reconnect (reconnect t) (λ e u. reconnect_attempts left (some e) u)

-- The state behind a stream, with its error. `none` means that the fuel ran out.
abbrev pub Ended : Type 0 → Type 0
Ended H = Option (Error × Session × H)

module _ {H : Type 0} where
  unfoldable pub after_attempts : Attempt × Session → H → (Session → H → Ended H) → Ended H
  after_attempts (cancelled e, t) h again = some (e, t, h)
  after_attempts (gave_up e, t) h again =
      some (wrap (codes "stream reconnect attempts exceeded") e, t, h)
  after_attempts (back, t) h again = again t h

  unfoldable pub closed_or_not : Bool → Error → Session → H → (Session → H → Ended H) → Ended H
  unfolding after_attempts
  closed_or_not false e t h again = some (e, t, h)
  closed_or_not true e t h again =
      after_attempts (reconnect_attempts max_reconnect_attempts none t) h again

  unfoldable pub after_stream :
      Error → Option Error × Session → H → (Session → H → Ended H) → Ended H
  unfolding closed_or_not
  after_stream e (some c, t) h again = some (c, t, h)
  after_stream e (none, t) h again = closed_or_not (error_is e conn_closed) e t h again

  -- The outer loop: `conn.Stream` returns an error always, and a closed connection is opened again.
  unfoldable pub stream_loop : ℕ → Handler H Bytes → Ctx → Bytes → Session → H → Ended H
  unfolding after_stream
  stream_loop zero handle ctx command s h = none
  stream_loop (suc fuel) handle ctx command s h =
      let (e, t, g) = stream handle ctx command s h in
      after_stream e (ctx_error t) g (λ u k. stream_loop fuel handle ctx command u k)

  -- Every round but the first dials anew.
  unfoldable pub streamed : Handler H Bytes → Ctx → Bytes → Session → H → Error × Session × H
  unfolding stream_loop
  streamed handle ctx command s h =
      or_stuck (stream_loop (suc (length s.env.dials)) handle ctx command s h)
        (message (codes "out of fuel"), s, h)

  unfoldable pub stream_released : Error → H → Option World → Option (Error × H × World)
  stream_released e h none = none
  stream_released e h (some w) = some (e, h, w)

  unfoldable pub stream_returned : Pool → Error × Session × H → Option (Error × H × World)
  unfolding stream_released
  stream_returned p (e, s, h) =
      stream_released e h (release_connection s.client (record { pool = p; env = s.env }))

  unfoldable pub stream_got :
      Handler H Bytes → Ctx → Bytes → Result TcpClient × World → H → Option (Error × H × World)
  unfolding streamed stream_returned
  stream_got handle ctx command (err e, w) h = some (wrap (codes "get connection") e, h, w)
  stream_got handle ctx command (ok c, w) h =
      stream_returned w.pool (streamed handle ctx command (record { client = c; env = w.env }) h)

  -- `c.stream` and `c.qstream`, for the parser of their events.
  unfoldable pub stream_with :
      {A : Type 0}
      → Target
      → Ctx
      → (Bytes → Result (Response A))
      → Handler H A
      → Bytes
      → World
      → H
      → Option (Error × H × World)
  unfolding stream_got event_handler
  stream_with target ctx parse handle command w h =
      stream_got (event_handler parse handle) ctx command (get_connection target w) h

  module _ (target : Target) (ctx : Ctx) where
    unfoldable pub limit_stream : Handler H LimitEvent → World → H → Option (Error × H × World)
    unfolding stream_with
    limit_stream handle = stream_with target ctx parse_limit_event_response handle command_stream

    unfoldable pub limit_pstream :
        Bytes → Handler H LimitEvent → World → H → Option (Error × H × World)
    unfolding stream_with
    limit_pstream prefix handle =
        stream_with target ctx parse_limit_event_response handle
          (write_prefix_command [] command_pstream prefix)

    -- `c.qstream`
    unfoldable pub qstream_with :
        Handler H QuotaEvent → Bytes → World → H → Option (Error × H × World)
    unfolding stream_with
    qstream_with handle = stream_with target ctx parse_quota_event_response handle

    unfoldable pub qstream : Handler H QuotaEvent → World → H → Option (Error × H × World)
    unfolding qstream_with
    qstream handle = qstream_with handle command_qstream

    unfoldable pub qpstream : Bytes → Handler H QuotaEvent → World → H → Option (Error × H × World)
    unfolding qstream_with
    qpstream prefix handle = qstream_with handle (write_prefix_command [] command_qpstream prefix)
