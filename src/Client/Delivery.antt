-- ===== src/Client/Delivery.antt =====
-- client.go: the events of a stream reach the caller's function, and its error ends the stream.
use fq_client_go.Common.{
  ℕ, suc, ◌≤◌, ◌≡◌, refl, ap, ◌∙◌, subst, arith, false, Option, none, some, List, [], ◌∷◌, ◌++◌,
  map, Bytes, codes, length, All,
}
use fq_client_go.Errors.{Error, message, error_is, conn_closed, Result, ok}
use fq_client_go.Net.{Ctx, next_ctx_error, ctx_error_from}
use fq_client_go.Types.{LimitEvent}
use fq_client_go.Response.{Response}
use fq_client_go.Response.Frame.{success_of}
use fq_client_go.Response.Readers.{parse_limit_event_response}
use fq_client_go.Response.Wire.{ok_wire, limit_event_fields, LimitEventFits}
use fq_client_go.Response.RoundTrip.{parse_limit_event_response-wire}
use fq_client_go.Command.{command_stream}
use fq_client_go.Tcp.{TcpClient, Session}
use fq_client_go.Tcp.Frames.{frame}
use fq_client_go.Tcp.Progress.{IsReady}
use fq_client_go.Tcp.Chunked.{or_stuck}
use fq_client_go.Tcp.Stream.{Handler, stream}
use fq_client_go.Tcp.Delivery.{deliver, delivered, event_frames, Streamed, stream-Streamed}
use fq_client_go.Tcp.Retry.{ctx_error}
use fq_client_go.Pool.{Target, World, get_connection}
use fq_client_go.Pool.Laws.{IsSound, given_back}
use fq_client_go.Client.Laws.{lent, get_connection-next, release_connection-lent}
use fq_client_go.Client.Streams.{
  Ended, on_event, event_handler, closed_or_not, after_stream, stream_loop, streamed,
  stream_released, stream_returned, stream_got, stream_with, limit_stream,
}

-- The pool is open, its next connection is `c` and works, the context is not done, and the frames
-- arrive there; the command and the frames are within the limit.
pub record Emits (w : World) (c : TcpClient) (rest : List TcpClient) (command : Bytes)
    (payloads : List Bytes) (left : Bytes) : Type 0 where
  pub is_open : w.pool.closed ≡ false
  pub sound : IsSound w.pool
  pub next : w.pool.idle ≡ c ∷ rest
  pub ready : IsReady (record { client = c; env = w.env })
  pub calm : w.env.ctx_errors ≡ []
  pub arrived : c.connection.inbox ≡ event_frames payloads ++ left
  pub fits : length command ≤ c.max_message_size
  pub small : All (λ p. length p ≤ c.max_message_size) payloads

-- The stream ended with the error and the state; its connection, on which the bytes were sent, is
-- the last of the idle ones, and nothing more is out than before.
pub record StreamEnded {H : Type 0} (out : Option (Error × H × World)) (e : Error) (g : H)
    (w : World) (rest : List TcpClient) (sent_bytes : Bytes) : Type 0 where
  pub client : TcpClient
  pub world : World
  pub returns : out ≡ some (e, g, world)
  pub idle : world.pool.idle ≡ rest ++ client ∷ []
  pub outstanding : world.pool.outstanding ≡ w.pool.outstanding
  pub sent : client.connection.sent ≡ sent_bytes

module _ {H A : Type 0} (parse : Bytes → Result (Response A)) (handle : Handler H A)
    (payload : A → Bytes) where
  event_handler-ok :
      (x : A) (h : H)
      → parse (payload x) ≡ ok (success_of x)
      → event_handler parse handle (payload x) h ≡ handle x h
  unfolding event_handler on_event
  event_handler-ok x h e = rw (e, event_handler) refl

  pub deliver-event_handler :
      (xs : List A) (h : H)
      → All (λ x. parse (payload x) ≡ ok (success_of x)) xs
      → deliver (event_handler parse handle) (map payload xs) h ≡ deliver handle xs h
  unfolding deliver
  deliver-event_handler [] h k = refl
  deliver-event_handler (x ∷ xs) h (e, k) =
      ap (λ o. delivered o (deliver (event_handler parse handle) (map payload xs)))
        (event_handler-ok x h e)
      ∙ behind (handle x h) (λ g. deliver-event_handler xs g k)
    where
      behind :
          (o : Option Error × H)
          → ((g : H)
              → deliver (event_handler parse handle) (map payload xs) g ≡ deliver handle xs g)
          → delivered o (deliver (event_handler parse handle) (map payload xs))
            ≡ delivered o (deliver handle xs)
      behind (some e, g) same = refl
      behind (none, g) same = same g

module _ {H : Type 0} (handle : Handler H Bytes) where
  after_stream-stops :
      (e : Error) (t : Session) (g : H) (again : Session → H → Ended H)
      → t.env.ctx_errors ≡ []
      → error_is e conn_closed ≡ false
      → after_stream e (ctx_error t) g again ≡ some (e, t, g)
  unfolding after_stream closed_or_not ctx_error next_ctx_error ctx_error_from
  after_stream-stops e t g again calm n =
      (λ i. after_stream e (calm_error (calm i)) g again) ∙ ap (λ b. closed_or_not b e t g again) n
    where
      calm_error : List (Option Error) → Option Error × Session
      calm_error os = let (o, env) = ctx_error_from os t.env in (o, record t { env = env })

  pub stream_loop-stops :
      (fuel : ℕ) (ctx : Ctx) (command : Bytes) (s : Session) (h : H) (e : Error) (g : H)
      → s.env.ctx_errors ≡ []
      → error_is e conn_closed ≡ false
      → Streamed (stream handle ctx command s h) e g s command
      → stream_loop (suc fuel) handle ctx command s h
        ≡ some (e, (stream handle ctx command s h).1, g)
  unfolding stream_loop
  stream_loop-stops fuel ctx command s h e g calm n d =
      let again = λ (u : Session) (k : H). stream_loop fuel handle ctx command u k in
      let t = (stream handle ctx command s h).1 in
      (λ i. after_stream (d.error i) (ctx_error t) (d.handled i) again)
      ∙ after_stream-stops e t g again (d.progress.ctx_errors ∙ calm) n

  -- The connection goes back to the pool behind the stream.
  pub streamed-StreamEnded :
      (target : Target) (ctx : Ctx) (command : Bytes) (w : World) (c : TcpClient)
      (rest : List TcpClient) (h : H) (e : Error) (g : H) (t : Session)
      → w.pool.closed ≡ false
      → IsSound w.pool
      → w.pool.idle ≡ c ∷ rest
      → streamed handle ctx command (record { client = c; env = w.env }) h ≡ (e, t, g)
      → StreamEnded
          (stream_got handle ctx command (get_connection target w) h)
          e
          g
          w
          rest
          t.client.connection.sent
  unfolding stream_got stream_returned stream_released
  streamed-StreamEnded target ctx command w c rest h e g t is_open sound next q = record {
    client = t.client;
    world = given_back t.client (record { pool = lent w rest; env = t.env });
    returns =
        ap (λ o. stream_got handle ctx command o h)
          (get_connection-next target w c rest is_open next)
        ∙ ap (stream_returned (lent w rest)) q
        ∙ ap (stream_released e g)
            (release_connection-lent w t.client c rest t.env is_open sound next);
    idle = refl;
    outstanding = omega arith;
    sent = refl;
  }

  stream_got-StreamEnded :
      (target : Target) (ctx : Ctx) (command : Bytes) (payloads : List Bytes) (w : World)
      (c : TcpClient) (rest : List TcpClient) (left : Bytes) (h : H) (e : Error) (g : H)
      → Emits w c rest command payloads left
      → deliver handle payloads h ≡ (some e, g)
      → error_is e conn_closed ≡ false
      → StreamEnded
          (stream_got handle ctx command (get_connection target w) h)
          e
          g
          w
          rest
          (c.connection.sent ++ frame command)
  unfolding streamed or_stuck
  stream_got-StreamEnded target ctx command payloads w c rest left h e g s d n =
      let session : Session = record { client = c; env = w.env } in
      let x =
        stream-Streamed handle ctx command payloads left session h e g s.ready s.arrived s.fits
          s.small d in
      let t = (stream handle ctx command session h).1 in
      let stuck : Error × Session × H = (message (codes "out of fuel"), session, h) in
      subst (StreamEnded (stream_got handle ctx command (get_connection target w) h) e g w rest)
        x.progress.sent
        (streamed-StreamEnded target ctx command w c rest h e g t s.is_open s.sound s.next (
          ap (λ o. or_stuck o stuck)
            (stream_loop-stops (length w.env.dials) ctx command session h e g s.calm n x)))

pub limit_events-read :
    (es : List LimitEvent)
    → All LimitEventFits es
    → All (λ e. parse_limit_event_response (ok_wire (limit_event_fields e)) ≡ ok (success_of e)) es
limit_events-read [] h = tt
limit_events-read (e ∷ es) (f, h) = (parse_limit_event_response-wire e f, limit_events-read es h)

-- `Stream` over a pool whose next connection works, while the context is not done: the events that the server sends, one frame each,
-- reach the caller's function in their order, each once, up to the first on which it returns an
-- error. If that error does not say that the connection is closed, the call returns it, with the
-- state that the caller's function left; the command was sent as one frame, and the connection is
-- back in the pool.
pub limit_stream-StreamEnded :
    {H : Type 0} (handle : Handler H LimitEvent) (target : Target) (ctx : Ctx)
    (es : List LimitEvent) (w : World) (c : TcpClient) (rest : List TcpClient) (left : Bytes)
    (h : H) (e : Error) (g : H)
    → All LimitEventFits es
    → Emits w c rest command_stream (map (λ x. ok_wire (limit_event_fields x)) es) left
    → deliver handle es h ≡ (some e, g)
    → error_is e conn_closed ≡ false
    → StreamEnded
        (limit_stream target ctx handle w h)
        e
        g
        w
        rest
        (c.connection.sent ++ frame command_stream)
unfolding limit_stream stream_with
limit_stream-StreamEnded handle target ctx es w c rest left h e g fit s d n =
    stream_got-StreamEnded (event_handler parse_limit_event_response handle) target ctx
      command_stream (map (λ x. ok_wire (limit_event_fields x)) es) w c rest left h e g s
      (deliver-event_handler parse_limit_event_response handle (λ x. ok_wire (limit_event_fields x))
          es h (limit_events-read es fit)
        ∙ d)
      n
