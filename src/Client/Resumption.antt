-- ===== src/Client/Resumption.antt =====
-- client.go: a stream whose connection drops goes on over the next one.
use fq_client_go.Common.{
  suc, ◌≤◌, ◌≡◌, ap, sym, ◌∙◌, subst, arith, true, false, none, some, List, [], ◌∷◌, ◌++◌, map,
  Bytes, codes, length, All,
}
use fq_client_go.Errors.{Error, message, error_is, conn_closed, ok}
use fq_client_go.Net.{Wire, Ctx, Dial}
use fq_client_go.Types.{LimitEvent}
use fq_client_go.Response.Readers.{HelloInfo, parse_limit_event_response}
use fq_client_go.Response.Wire.{ok_wire, limit_event_fields, LimitEventFits}
use fq_client_go.Command.{command_stream}
use fq_client_go.Tcp.{TcpClient, Session, is_connection_error, normalize_connection_error}
use fq_client_go.Tcp.Frames.{frame}
use fq_client_go.Tcp.Progress.{IsReady}
use fq_client_go.Tcp.Connect.{reconnect, hello_request}
use fq_client_go.Tcp.Handshake.{Accepts, reconnect-Established}
use fq_client_go.Tcp.Chunked.{or_stuck}
use fq_client_go.Tcp.Stream.{Handler, stream}
use fq_client_go.Tcp.Delivery.{deliver, event_frames, Streamed, stream-Streamed}
use fq_client_go.Tcp.Dropped.{stream-dropped}
use fq_client_go.Tcp.Retry.{ctx_error, max_reconnect_attempts}
use fq_client_go.Tcp.Recovery.{ctx_error-alive}
use fq_client_go.Pool.{Target, World}
use fq_client_go.Pool.Laws.{IsSound}
use fq_client_go.Client.Streams.{
  Ended, back, on_ctx, on_reconnect, reconnect_attempts, after_attempts, closed_or_not,
  after_stream, stream_loop, streamed, stream_with, event_handler, limit_stream,
}
use fq_client_go.Client.Delivery.{
  StreamEnded, stream_loop-stops, streamed-StreamEnded, deliver-event_handler, limit_events-read,
}

-- The connection works, the frames of `before` arrive there, and then it drops. The context is not
-- done, the next dial reaches a server that accepts the handshake, and there the frames of `after`
-- arrive. The command and the frames are within the limits.
pub record Resumes (s : Session) (w : Wire) (ds : List Dial) (info : HelloInfo) (command : Bytes)
    (before after : List Bytes) (left : Bytes) : Type 0 where
  pub ready : IsReady s
  pub calm : s.env.ctx_errors ≡ []
  pub arrived : s.client.connection.inbox ≡ event_frames before
  pub drops : is_connection_error s.client.connection.fault ≡ true
  pub next : Accepts s w ds info (event_frames after ++ left)
  pub fits : length command ≤ s.client.max_message_size
  pub small : All (λ p. length p ≤ s.client.max_message_size) before
  pub fits_after : length command ≤ info.max_message_size
  pub small_after : All (λ p. length p ≤ info.max_message_size) after

-- The bytes sent on a connection: the handshake with the token, and the command.
abbrev pub asked_again : Wire → Bytes → Bytes → Bytes
asked_again w token command = (w.sent ++ frame (hello_request token)) ++ frame command

record Resumed {H : Type 0} (out : Error × Session × H) (e : Error) (g : H) (sent_bytes : Bytes)
    : Type 0 where
  session : Session
  returns : out ≡ (e, session, g)
  sent : session.client.connection.sent ≡ sent_bytes

normalized-closed :
    (e : Error)
    → is_connection_error e ≡ true
    → error_is (normalize_connection_error e) conn_closed ≡ true
unfolding normalize_connection_error error_is
normalized-closed e h = rw h

reconnect_attempts-back :
    (t : Session)
    → t.env.ctx_errors ≡ []
    → (reconnect t).0 ≡ ok tt
    → reconnect_attempts max_reconnect_attempts none t ≡ (back, (reconnect t).1)
unfolding reconnect_attempts on_ctx on_reconnect
reconnect_attempts-back t alive reached = rw (ctx_error-alive t alive, reached)

-- The stream sees the same client behind a drop.
Accepts-dropped :
    {H : Type 0} (s : Session) (w : Wire) (ds : List Dial) (info : HelloInfo) (rest : Bytes)
    (out : Error × Session × H) (e : Error) (g : H) (command : Bytes)
    → Accepts s w ds info rest
    → Streamed out e g s command
    → Accepts out.1 w ds info rest
Accepts-dropped s w ds info rest out e g command a x =
    let p = x.progress in
    record {
      next = p.dials ∙ a.next;
      wire = a.wire;
      deadlines = a.deadlines;
      room = p.ready.room;
      limit = p.ready.small;
      fits = a.fits;
      version = a.version;
      arrived = a.arrived;
      small = omega (arith, ap (λ b. length (hello_request b)) p.token, p.limit, a.small);
      short = omega (arith, p.limit, a.short);
    }

module _ {H : Type 0} (handle : Handler H Bytes) where
  after_stream-back :
      (e : Error) (t : Session) (g : H) (again : Session → H → Ended H)
      → t.env.ctx_errors ≡ []
      → error_is e conn_closed ≡ true
      → (reconnect t).0 ≡ ok tt
      → after_stream e (ctx_error t) g again ≡ again (reconnect t).1 g
  unfolding after_stream closed_or_not after_attempts
  after_stream-back e t g again alive closed reached =
      ap (λ o. after_stream e o g again) (ctx_error-alive t alive)
      ∙ ap (λ b. closed_or_not b e t g again) closed
      ∙ ap (λ o. after_attempts o g again) (reconnect_attempts-back t alive reached)

  streamed-Resumed :
      (ctx : Ctx) (command : Bytes) (before after : List Bytes) (left : Bytes) (s : Session)
      (w : Wire) (ds : List Dial) (info : HelloInfo) (h k : H) (e : Error) (g : H)
      → Resumes s w ds info command before after left
      → deliver handle before h ≡ (none, k)
      → deliver handle after k ≡ (some e, g)
      → error_is e conn_closed ≡ false
      → Resumed (streamed handle ctx command s h) e g (asked_again w s.client.token command)
  unfolding streamed stream_loop or_stuck
  streamed-Resumed ctx command before after left s w ds info h k e g r d q n =
      let x = stream-dropped handle ctx command before s h k r.ready r.arrived r.fits r.small d in
      let t = (stream handle ctx command s h).1 in
      let fault = normalize_connection_error s.client.connection.fault in
      let accepted =
        Accepts-dropped s w ds info (event_frames after ++ left) (stream handle ctx command s h)
          fault k command r.next x in
      let (reached, est) =
        reconnect-Established t w ds info (event_frames after ++ left) accepted in
      let u = (reconnect t).1 in
      let y =
        stream-Streamed handle ctx command after left u k e g est.ready est.inbox
          (omega (arith, est.limit, r.fits_after))
          (subst (λ limit. All (λ p. length p ≤ limit) after) (sym est.limit) r.small_after) q in
      let calm = x.progress.ctx_errors ∙ r.calm in
      let again = λ (v : Session) (z : H). stream_loop (suc (length ds)) handle ctx command v z in
      let stuck : Error × Session × H = (message (codes "out of fuel"), s, h) in
      record {
        session = (stream handle ctx command u k).1;
        returns =
            ap
              (λ (l : List Dial).
                or_stuck (stream_loop (suc (length l)) handle ctx command s h) stuck)
              r.next.next
            ∙ ap (λ o. or_stuck o stuck)
                ((λ i. after_stream (x.error i) (ctx_error t) (x.handled i) again)
                  ∙ after_stream-back fault t k again calm
                      (normalized-closed s.client.connection.fault r.drops) reached
                  ∙ stream_loop-stops handle (length ds) ctx command u k e g (est.ctx_errors ∙ calm)
                      n y);
        sent =
            y.progress.sent
            ∙ ap (λ (b : Bytes). b ++ frame command)
                (est.sent ∙ ap (λ (b : Bytes). w.sent ++ frame (hello_request b)) x.progress.token);
      }

-- `Stream` over a pool whose next connection works and then drops, while the context is not done
-- and the next dial reaches a server that accepts the handshake: the command is sent again behind
-- the handshake with the client's token, and the events of both connections reach the caller's
-- function in their order, each once, up to the first on which it returns an error. If that error
-- does not say that the connection is closed, the call returns it, with the state that the caller's
-- function left, and the new connection goes to the pool.
pub limit_stream-Resumed :
    {H : Type 0} (handle : Handler H LimitEvent) (target : Target) (ctx : Ctx)
    (before after : List LimitEvent) (w : World) (c : TcpClient) (rest : List TcpClient)
    (wire : Wire) (ds : List Dial) (info : HelloInfo) (left : Bytes) (h k : H) (e : Error) (g : H)
    → All LimitEventFits before
    → All LimitEventFits after
    → w.pool.closed ≡ false
    → IsSound w.pool
    → w.pool.idle ≡ c ∷ rest
    → Resumes
        (record { client = c; env = w.env })
        wire
        ds
        info
        command_stream
        (map (λ x. ok_wire (limit_event_fields x)) before)
        (map (λ x. ok_wire (limit_event_fields x)) after)
        left
    → deliver handle before h ≡ (none, k)
    → deliver handle after k ≡ (some e, g)
    → error_is e conn_closed ≡ false
    → StreamEnded
        (limit_stream target ctx handle w h)
        e
        g
        w
        rest
        (asked_again wire c.token command_stream)
unfolding limit_stream stream_with
limit_stream-Resumed handle target ctx before after w c rest wire ds info left h k e g fit fits
      is_open sound next r d q n =
    let parsed = event_handler parse_limit_event_response handle in
    let payload = λ (x : LimitEvent). ok_wire (limit_event_fields x) in
    let read = deliver-event_handler parse_limit_event_response handle payload in
    let x =
      streamed-Resumed parsed ctx command_stream (map payload before) (map payload after) left
        (record { client = c; env = w.env }) wire ds info h k e g r
        (read before h (limit_events-read before fit) ∙ d)
        (read after k (limit_events-read after fits) ∙ q) n in
    subst (StreamEnded (limit_stream target ctx handle w h) e g w rest) x.sent (
      streamed-StreamEnded parsed target ctx command_stream w c rest h e g x.session is_open sound
        next x.returns)
