-- ===== src/Tcp/Recovery.antt =====
-- A request on a connection that the server closed.
use fq_client_go.Common.{
  ℕ, suc, ◌≤◌, ◌≡◌, refl, ap, sym, ◌∙◌, subst, true, false, none, List, [], ◌++◌, Bytes, length,
  arith, ltb,
}
use fq_client_go.Errors.{Error, Result, ok, err, error_is, conn_closed, both, sentinel, net_closed}
use fq_client_go.Exec.{Exec}
use fq_client_go.Net.{Wire, Ctx, Dial, next_ctx_error, ctx_error_from, now, set_deadline}
use fq_client_go.Response.Readers.{HelloInfo}
use fq_client_go.Tcp.{
  Session, send, check_request, arm, on_connection, normalize_connection_error, is_connection_error,
  is_net_error,
}
use fq_client_go.Tcp.Frames.{frame}
use fq_client_go.Tcp.Progress.{IsReady}
use fq_client_go.Tcp.Exchange.{send-Succeeds}
use fq_client_go.Tcp.Connect.{reconnect, hello_request}
use fq_client_go.Tcp.Handshake.{Established, Accepts, fresh, reconnect-Established}
use fq_client_go.Tcp.Retry.{
  Outcome, after_send, retry_if, attempts, with_reconnect, send_with_reconnect, ctx_error,
  max_reconnect_attempts,
}

pub ctx_error-alive : (t : Session) → t.env.ctx_errors ≡ [] → ctx_error t ≡ (none, t)
unfolding ctx_error next_ctx_error
ctx_error-alive t e =
    λ i. ((ctx_error_from (e i) t.env).0, record t { env = (ctx_error_from (e i) t.env).1 })

module _ (resend : Exec Session Bytes) where
  -- A request that succeeds at once is not sent again.
  pub with_reconnect-ok :
      (s : Session) (resp : Bytes)
      → (resend s).0 ≡ ok resp
      → with_reconnect resend s ≡ (ok resp, (resend s).1)
  unfolding with_reconnect
  with_reconnect-ok s resp e =
      λ i. after_send (e i, (resend s).1) (λ x t. attempts resend max_reconnect_attempts x t)

  after_send-closed :
      (out : Outcome) (e : Error) (again : Error → Session → Outcome)
      → out.0 ≡ err e
      → error_is e conn_closed ≡ true
      → after_send out again ≡ again e out.1
  unfolding after_send
  after_send-closed out e again h c =
      (λ i. after_send (h i, out.1) again) ∙ λ i. retry_if (c i) e out.1 again

  after_send-other :
      (out : Outcome) (e : Error) (again : Error → Session → Outcome)
      → out.0 ≡ err e
      → error_is e conn_closed ≡ false
      → after_send out again ≡ (err e, out.1)
  unfolding after_send
  after_send-other out e again h c =
      (λ i. after_send (h i, out.1) again) ∙ λ i. retry_if (c i) e out.1 again

  -- An error of another kind is returned as it is, and the request is not sent again.
  pub with_reconnect-other :
      (s : Session) (e : Error)
      → (resend s).0 ≡ err e
      → error_is e conn_closed ≡ false
      → with_reconnect resend s ≡ (err e, (resend s).1)
  unfolding with_reconnect
  with_reconnect-other s e h c = after_send-other (resend s) e _ h c

  -- One round that reconnects and gets an answer.
  attempts-ok :
      (left : ℕ) (last : Error) (t : Session) (resp : Bytes)
      → t.env.ctx_errors ≡ []
      → (reconnect t).0 ≡ ok tt
      → (resend (reconnect t).1).0 ≡ ok resp
      → attempts resend (suc left) last t ≡ (ok resp, (resend (reconnect t).1).1)
  unfolding attempts
  attempts-ok left last t resp alive reached answered =
      rw (ctx_error-alive t alive, reached, answered)

  pub with_reconnect-again :
      (s : Session) (e : Error) (resp : Bytes)
      → (resend s).0 ≡ err e
      → error_is e conn_closed ≡ true
      → (resend s).1.env.ctx_errors ≡ []
      → (reconnect (resend s).1).0 ≡ ok tt
      → (resend (reconnect (resend s).1).1).0 ≡ ok resp
      → with_reconnect resend s ≡ (ok resp, (resend (reconnect (resend s).1).1).1)
  unfolding with_reconnect
  with_reconnect-again s e resp h c alive reached answered =
      after_send-closed (resend s) e _ h c
      ∙ attempts-ok 15 e (resend s).1 resp alive reached answered

abbrev pub closed_error : Error
closed_error = both (sentinel conn_closed) (sentinel net_closed)

-- A request on a closed connection reaches nobody, and fails with `ErrConnClosed`.
pub send-closed :
    (ctx : Ctx) (request : Bytes) (s : Session)
    → s.client.connection.closed ≡ true
    → length request ≤ s.client.max_message_size
    → send ctx request s ≡ (err closed_error, record s { env = (now s.env).1 })
unfolding send check_request arm on_connection set_deadline normalize_connection_error
    is_connection_error is_net_error error_is
send-closed ctx request s c fits =
    let small : ltb s.client.max_message_size (length request) ≡ false = ground arith in
    simp (small, c)

-- What the request left behind on the new connection.
pub record Recovered (out : Result Bytes × Session) (w : Wire) (token request resp rest : Bytes)
    : Type 0 where
  pub result : out.0 ≡ ok resp
  pub sent : out.1.client.connection.sent ≡ w.sent ++ frame (hello_request token) ++ frame request
  pub inbox : out.1.client.connection.inbox ≡ rest
  pub ready : IsReady out.1

again-Recovered :
    (ctx : Ctx) (request resp rest : Bytes) (s t : Session) (info : HelloInfo)
    → Established s t info (frame resp ++ rest)
    → length request ≤ info.max_message_size
    → length resp ≤ info.max_message_size
    → Recovered (send ctx request t) s.client.connection s.client.token request resp rest
again-Recovered ctx request resp rest s t info h fits small =
    let done =
      send-Succeeds ctx request resp rest t h.ready h.inbox (omega (arith, h.limit))
        (omega (arith, h.limit)) in
    record {
      result = done.result;
      sent = done.progress.sent ∙ ap (λ (b : Bytes). b ++ frame request) h.sent;
      inbox = done.progress.inbox;
      ready = done.progress.ready;
    }

Accepts-later :
    (s : Session) (w : Wire) (ds : List Dial) (info : HelloInfo) (rest : Bytes)
    → Accepts s w ds info rest
    → Accepts (record s { env = (now s.env).1 }) w ds info rest
unfolding now
Accepts-later s w ds info rest a = record {
  next = a.next;
  wire = a.wire;
  deadlines = a.deadlines;
  room = a.room;
  limit = a.limit;
  fits = a.fits;
  version = a.version;
  arrived = a.arrived;
  small = a.small;
  short = a.short;
}

-- The retry, where sending on the old connection failed and left `t`.
retried :
    (resend : Exec Session Bytes) (s t : Session) (resp : Bytes)
    → resend s ≡ (err closed_error, t)
    → t.env.ctx_errors ≡ []
    → (reconnect t).0 ≡ ok tt
    → (resend (reconnect t).1).0 ≡ ok resp
    → with_reconnect resend s ≡ (ok resp, (resend (reconnect t).1).1)
unfolding with_reconnect error_is
retried resend s t resp failed alive reached answered =
    (λ i. after_send (failed i) (λ x u. attempts resend max_reconnect_attempts x u))
    ∙ attempts-ok resend 15 closed_error t resp alive reached answered

-- A request on a connection that was closed, while the context is not done and the next dial
-- reaches a server that accepts the handshake, is sent once on the new connection, behind the
-- handshake with the client's token, and its response is returned.
pub send_with_reconnect-Recovered :
    (ctx : Ctx) (request resp rest : Bytes) (s : Session) (w : Wire) (ds : List Dial)
    (info : HelloInfo)
    → s.client.connection.closed ≡ true
    → s.env.ctx_errors ≡ []
    → Accepts s w ds info (frame resp ++ rest)
    → length request ≤ s.client.max_message_size
    → length request ≤ info.max_message_size
    → length resp ≤ info.max_message_size
    → Recovered (send_with_reconnect ctx request s) w s.client.token request resp rest
unfolding send_with_reconnect now
send_with_reconnect-Recovered ctx request resp rest s w ds info c alive a now_fits fits small =
    let t : Session = record s { env = (now s.env).1 } in
    let (reached, h) =
      reconnect-Established t w ds info (frame resp ++ rest)
        (Accepts-later s w ds info (frame resp ++ rest) a) in
    let r =
      again-Recovered ctx request resp rest (fresh t w ds) (reconnect t).1 info h fits small in
    let whole =
      retried (send ctx request) s t resp (send-closed ctx request s c now_fits) alive reached
        r.result in
    subst (λ out. Recovered out w s.client.token request resp rest) (sym whole)
      (record { result = refl; sent = r.sent; inbox = r.inbox; ready = r.ready })
