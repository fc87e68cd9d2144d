-- ===== src/Tcp/Handshake.antt =====
-- The handshake with a server that accepts it, or refuses it.
use fq_client_go.Common.{
  ◌+◌, ◌≤◌, ◌<◌, ◌^◌, ◌≡◌, refl, ap, sym, ◌∙◌, subst, true, some, List, [], ◌∷◌, ◌++◌, Bytes, codes,
  length, arith, ◌==◌,
}
use fq_client_go.Errors.{Error, protocol, Result, ok, err, both, wrap, sentinel, auth_failed}
use fq_client_go.Exec.{proceed, map_error}
use fq_client_go.Net.{Wire, Ctx, Dial, connected, now, next_dial, dial_from}
use fq_client_go.Response.{is_protocol_code}
use fq_client_go.Response.Frame.{failure_of, parse_frame-error}
use fq_client_go.Response.Readers.{HelloInfo, zero_hello_info, parse_hello_response}
use fq_client_go.Response.Wire.{ok_wire, error_wire, hello_fields, HelloFits}
use fq_client_go.Response.RoundTrip.{parse_hello_response-wire}
use fq_client_go.Response.Protocol.{code_number, authentication_failed, parse_error-wire}
use fq_client_go.Command.{protocol_version}
use fq_client_go.Tcp.{Session, send, connect_timeout}
use fq_client_go.Tcp.Frames.{frame, IsOpen}
use fq_client_go.Tcp.Progress.{IsReady}
use fq_client_go.Tcp.Exchange.{send-Succeeds}
use fq_client_go.Tcp.Connect.{
  hello_request, set_max_message_size_unsafe, hello_failure, accept_hello, negotiate, hello, dial,
  hello_or_close, establish, dialled, connect, reconnect, close_connection,
}

-- A connection on which the handshake was sent and accepted.
pub record Established (s t : Session) (info : HelloInfo) (rest : Bytes) : Type 0 where
  pub sent :
      t.client.connection.sent ≡ s.client.connection.sent ++ frame (hello_request s.client.token)
  pub inbox : t.client.connection.inbox ≡ rest
  pub limit : t.client.max_message_size ≡ info.max_message_size
  pub dials : t.env.dials ≡ s.env.dials
  pub ctx_errors : t.env.ctx_errors ≡ s.env.ctx_errors
  pub ready : IsReady t

map_error-ok :
    {A : Type 0} (f : Error → Error) (out : Result A × Session) (a : A)
    → out.0 ≡ ok a
    → map_error f out ≡ (ok a, out.1)
map_error-ok f out a e = λ i. map_error f (e i, out.1)

accept_hello-version :
    (info : HelloInfo) (t : Session)
    → info.version ≡ protocol_version
    → accept_hello info t
      ≡ (ok tt, record t { client = set_max_message_size_unsafe info.max_message_size t.client })
unfolding accept_hello
accept_hello-version info t e =
    let same : (info.version == protocol_version) ≡ true = ground arith in rw same

-- A server that speaks version 1 and answers the handshake in its format is accepted: the client
-- sent `HELLO 1`, with its token where it has one, and takes over the server's largest message size.
pub hello-Established :
    (ctx : Ctx) (info : HelloInfo) (rest : Bytes) (s : Session)
    → IsReady s
    → HelloFits info
    → info.version ≡ protocol_version
    → s.client.connection.inbox ≡ frame (ok_wire (hello_fields info)) ++ rest
    → length (hello_request s.client.token) ≤ s.client.max_message_size
    → length (ok_wire (hello_fields info)) ≤ s.client.max_message_size
    → ((hello ctx s).0 ≡ ok tt) × Established s (hello ctx s).1 info rest
unfolding hello negotiate set_max_message_size_unsafe
hello-Established ctx info rest s ready fits version e small short =
    let p = ok_wire (hello_fields info) in
    let done = send-Succeeds ctx (hello_request s.client.token) p rest s ready e small short in
    rw
      (
        map_error-ok (wrap (codes "send hello")) (send ctx (hello_request s.client.token) s) p
            done.result,
        parse_hello_response-wire info fits,
        accept_hello-version info (send ctx (hello_request s.client.token) s).1 version,
      )
      (
        refl,
        record {
          sent = done.progress.sent;
          inbox = done.progress.inbox;
          limit = refl;
          dials = done.progress.dials;
          ctx_errors = done.progress.ctx_errors;
          ready = record {
            wire = done.progress.ready.wire;
            deadlines = done.progress.ready.deadlines;
            room = refl;
            small = omega (arith, fits.max_message_size);
          };
        },
      )

hello_error :
    (text : Bytes)
    → parse_hello_response (error_wire (code_number authentication_failed) text)
      ≡ ok (failure_of zero_hello_info (protocol (code_number authentication_failed) text))
unfolding parse_hello_response error_wire code_number
hello_error text =
    parse_frame-error zero_hello_info _ _
    ∙ ap (λ e. ok (failure_of zero_hello_info e)) (parse_error-wire 3002 text (omega arith))

-- A token that the server refuses is an authentication failure, which keeps the server's error.
pub hello-auth_failed :
    (ctx : Ctx) (text rest : Bytes) (s : Session)
    → IsReady s
    → s.client.connection.inbox
      ≡ frame (error_wire (code_number authentication_failed) text) ++ rest
    → length (hello_request s.client.token) ≤ s.client.max_message_size
    → length (error_wire (code_number authentication_failed) text) ≤ s.client.max_message_size
    → (hello ctx s).0
      ≡ err (both (sentinel auth_failed) (protocol (code_number authentication_failed) text))
unfolding hello negotiate hello_failure is_protocol_code code_number
hello-auth_failed ctx text rest s ready e small short =
    let p = error_wire (code_number authentication_failed) text in
    let done = send-Succeeds ctx (hello_request s.client.token) p rest s ready e small short in
    rw (
      map_error-ok (wrap (codes "send hello")) (send ctx (hello_request s.client.token) s) p
          done.result,
      hello_error text,
    )

hello_or_close-ok :
    (out : Result (Unit {0}) × Session) → out.0 ≡ ok tt → hello_or_close out ≡ (ok tt, out.1)
unfolding hello_or_close
hello_or_close-ok out e = λ i. hello_or_close (e i, out.1)

-- The connection that the next dial gives works, and the server behind it accepts the handshake.
pub record Accepts (s : Session) (w : Wire) (ds : List Dial) (info : HelloInfo) (rest : Bytes)
    : Type 0 where
  pub next : s.env.dials ≡ connected w ∷ ds
  pub wire : IsOpen w
  pub deadlines : w.deadline_steps ≡ []
  pub room : s.client.buffer_size ≡ s.client.max_message_size
  pub limit : s.client.max_message_size < 2 ^ 32
  pub fits : HelloFits info
  pub version : info.version ≡ protocol_version
  pub arrived : w.inbox ≡ frame (ok_wire (hello_fields info)) ++ rest
  pub small : length (hello_request s.client.token) ≤ s.client.max_message_size
  pub short : length (ok_wire (hello_fields info)) ≤ s.client.max_message_size

abbrev pub fresh : Session → Wire → List Dial → Session
fresh s w ds = record {
  client = record s.client { connection = w };
  env = record s.env { dials = ds };
}

establish-Established :
    (s : Session) (w : Wire) (ds : List Dial) (info : HelloInfo) (rest : Bytes)
    → Accepts s w ds info rest
    → let out = establish w (record s { env = record s.env { dials = ds } }) in
      (out.0 ≡ ok tt) × Established (fresh s w ds) out.1 info rest
unfolding establish now
establish-Established s w ds info rest a =
    let (start, env) = now (record s.env { dials = ds }) in
    let ctx : Ctx = record { deadline = some (start + connect_timeout) } in
    let t : Session = record { client = record s.client { connection = w }; env = env } in
    let ready : IsReady t = record {
      wire = a.wire;
      deadlines = a.deadlines;
      room = a.room;
      small = a.limit;
    } in
    let (done, h) =
      hello-Established ctx info rest t ready a.fits a.version a.arrived a.small a.short in
    rw (hello_or_close-ok (hello ctx t) done) (
      refl,
      record {
        sent = h.sent;
        inbox = h.inbox;
        limit = h.limit;
        dials = h.dials;
        ctx_errors = h.ctx_errors;
        ready = h.ready;
      },
    )

-- Dialling and the handshake, with a server that accepts: the client is connected, has sent the
-- handshake and nothing else, and the largest message size is the server's.
pub connect-Established :
    (s : Session) (w : Wire) (ds : List Dial) (info : HelloInfo) (rest : Bytes)
    → Accepts s w ds info rest
    → ((connect s).0 ≡ ok tt) × Established (fresh s w ds) (connect s).1 info rest
unfolding connect dial next_dial
connect-Established s w ds info rest a =
    subst
      (λ d.
        let out = proceed d establish in
        (out.0 ≡ ok tt) × Established (fresh s w ds) out.1 info rest)
      (λ i. dialled s (dial_from (sym a.next i) s.env)) (establish-Established s w ds info rest a)

-- Closing the old connection does not matter to the new one.
pub reconnect-Established :
    (s : Session) (w : Wire) (ds : List Dial) (info : HelloInfo) (rest : Bytes)
    → Accepts s w ds info rest
    → ((reconnect s).0 ≡ ok tt) × Established (fresh s w ds) (reconnect s).1 info rest
unfolding reconnect
reconnect-Established s w ds info rest a =
    let b : Accepts (close_connection s) w ds info rest = record {
      next = a.next;
      wire = a.wire;
      deadlines = a.deadlines;
      room = a.room;
      limit = a.limit;
      fits = a.fits;
      version = a.version;
      arrived = a.arrived;
      small = a.small;
      short = a.short;
    } in
    let (done, h) = connect-Established (close_connection s) w ds info rest b in
    (
      done,
      record {
        sent = h.sent;
        inbox = h.inbox;
        limit = h.limit;
        dials = h.dials;
        ctx_errors = h.ctx_errors;
        ready = h.ready;
      },
    )
