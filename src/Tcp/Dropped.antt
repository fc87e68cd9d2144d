-- ===== src/Tcp/Dropped.antt =====
-- tcp_client.go: a stream whose connection drops behind some frames.
use fq_client_go.Common.{
  ℕ, zero, suc, ◌≤◌, ◌<◌, ◌≡◌, refl, ap, sym, ◌∙◌, subst, arith, false, Option, none, some, List,
  [], ◌∷◌, append-nil, Bytes, length, All,
}
use fq_client_go.Errors.{Error, Result, err}
use fq_client_go.Exec.{proceed-ok, ◌>>◌}
use fq_client_go.Net.{Wire, Ctx, read_full}
use fq_client_go.Tcp.{
  Session, arm, receive, check_request, on_connection, write_frame, read_frame_into,
  read_frame_size, normalize_connection_error,
}
use fq_client_go.Tcp.Progress.{IsReady, Progress, Progress-trans}
use fq_client_go.Tcp.Exchange.{round-Succeeds, arm-Succeeds}
use fq_client_go.Tcp.Chunked.{rounds}
use fq_client_go.Tcp.Stream.{Handler, after_handle, frames, frame_step, stream}
use fq_client_go.Tcp.Delivery.{
  deliver, delivered, event_frames, Stopped, Streamed, frame_step-ok, request-Succeeds,
  begun-Streamed, length-event_frames,
}

-- A read where nothing more arrives fails with the fault of the connection.
read_frame_into-dropped :
    (limit buffer : ℕ) (w : Wire)
    → w.closed ≡ false
    → w.inbox ≡ []
    → read_frame_into limit buffer w ≡ (err w.fault, record w { inbox = [] })
unfolding read_frame_into read_frame_size read_full
read_frame_into-dropped limit buffer w c e = simp (c, e)

-- A step that failed because the connection dropped.
record Fails {A : Type 0} (out : Result A × Session) (e : Error) (s : Session) : Type 0 where
  result : out.0 ≡ err e
  progress : Progress s out.1 [] []

receive-Fails :
    (s : Session)
    → IsReady s
    → s.client.connection.inbox ≡ []
    → Fails (receive s) (normalize_connection_error s.client.connection.fault) s
unfolding receive on_connection
receive-Fails s r e =
    rw
      (read_frame_into-dropped s.client.max_message_size s.client.buffer_size s.client.connection
        r.wire.open_wire e)
      (record {
        result = refl;
        progress = record {
          sent = sym (append-nil _);
          inbox = refl;
          limit = refl;
          fault = refl;
          token = refl;
          dials = refl;
          ctx_errors = refl;
          ready = record {
            wire = record { open_wire = r.wire.open_wire; calm = r.wire.calm };
            deadlines = r.deadlines;
            room = r.room;
            small = r.small;
          };
        };
      })

round-Fails :
    (ctx : Ctx) (s : Session)
    → IsReady s
    → s.client.connection.inbox ≡ []
    → Fails ((do arm ctx; receive) s) (normalize_connection_error s.client.connection.fault) s
round-Fails ctx s r e =
    let armed = arm-Succeeds ctx [] s r e in
    let t = (arm ctx s).1 in
    let last = receive-Fails t armed.progress.ready armed.progress.inbox in
    subst (λ o. Fails o (normalize_connection_error s.client.connection.fault) s)
      (sym (proceed-ok (arm ctx s) (λ _. receive) tt armed.result))
      (record {
        result = last.result ∙ ap (λ x. err (normalize_connection_error x)) armed.progress.fault;
        progress = Progress-trans s t (receive t).1 [] [] [] [] armed.progress last.progress;
      })

module _ {H : Type 0} (handle : Handler H Bytes) where
  frame_step-err :
      (out : Result Bytes × Session) (e : Error) (h : H)
      (next : Session → H → Option (Error × Session × H))
      → out.0 ≡ err e
      → frame_step handle out h next ≡ some (e, out.1, h)
  unfolding frame_step
  frame_step-err out e h next x = λ i. frame_step handle (x i, out.1) h next

  passed_cases :
      {s t : Session} {e : Error} {g : H} {left : Bytes} {again : H → Option (Error × Session × H)}
      (ps : List Bytes) (o : Option Error × H)
      → delivered o (deliver handle ps) ≡ (none, g)
      → ((k : H) → deliver handle ps k ≡ (none, g) → Stopped (again k) e g t)
      → Progress s t [] left
      → Stopped (after_handle o (λ x k. some (x, t, k)) again) e g s
  unfolding after_handle delivered
  passed_cases ps (some x, k) q next p = absurd cc
  passed_cases {s} {t} {left = left} ps (none, k) q next p =
      let d = next k q in
      record {
        session = d.session;
        left = d.left;
        result = d.result;
        progress = Progress-trans s t d.session [] [] left d.left p d.progress;
      }

  frames-dropped :
      (ps : List Bytes) (fuel : ℕ) (ctx : Ctx) (s : Session) (h g : H)
      → length ps < fuel
      → IsReady s
      → s.client.connection.inbox ≡ event_frames ps
      → All (λ p. length p ≤ s.client.max_message_size) ps
      → deliver handle ps h ≡ (none, g)
      → Stopped
          (frames handle fuel ctx s h)
          (normalize_connection_error s.client.connection.fault)
          g
          s
  unfolding frames deliver
  frames-dropped ps zero ctx s h g enough ready there fits d = absurd (omega arith)
  frames-dropped [] (suc fuel) ctx s h g enough ready there fits d =
      let x = round-Fails ctx s ready there in
      let t = ((do arm ctx; receive) s).1 in
      let e = normalize_connection_error s.client.connection.fault in
      record {
        session = t;
        left = [];
        result =
            frame_step-err ((do arm ctx; receive) s) e h (λ t k. frames handle fuel ctx t k)
              x.result
            ∙ ap (λ (o : Option Error × H). some (e, t, o.1)) d;
        progress = x.progress;
      }
  frames-dropped (p ∷ ps) (suc fuel) ctx s h g enough ready there (fit, fits) d =
      let round = round-Succeeds ctx p (event_frames ps) s ready there fit in
      let t = ((do arm ctx; receive) s).1 in
      subst (λ o. Stopped o (normalize_connection_error s.client.connection.fault) g s)
        (sym (frame_step-ok handle ((do arm ctx; receive) s) p h _ round.result))
        (passed_cases ps (handle p h) d
          (λ k q.
            subst (λ x. Stopped (frames handle fuel ctx t k) (normalize_connection_error x) g t)
              round.progress.fault
              (frames-dropped ps fuel ctx t k g (omega arith) round.progress.ready
                round.progress.inbox
                (subst (λ limit. All (λ p. length p ≤ limit) ps) (sym round.progress.limit) fits)
                q))
          round.progress)

  -- A stream whose connection drops: the frames that arrived were given to the caller's function,
  -- and the fault is returned.
  pub stream-dropped :
      (ctx : Ctx) (request : Bytes) (ps : List Bytes) (s : Session) (h g : H)
      → IsReady s
      → s.client.connection.inbox ≡ event_frames ps
      → length request ≤ s.client.max_message_size
      → All (λ p. length p ≤ s.client.max_message_size) ps
      → deliver handle ps h ≡ (none, g)
      → Streamed
          (stream handle ctx request s h)
          (normalize_connection_error s.client.connection.fault)
          g
          s
          request
  unfolding stream
  stream-dropped ctx request ps s h g ready there fit fits d =
      let asked = request-Succeeds ctx request (event_frames ps) s ready there fit in
      let p = asked.progress in
      let t = ((do check_request request; arm ctx; on_connection (write_frame request)) s).1 in
      begun-Streamed handle ctx request (event_frames ps) s _ h _ g asked (
        subst (λ x. Stopped (frames handle (rounds t) ctx t h) (normalize_connection_error x) g t)
          p.fault
          (frames-dropped ps (rounds t) ctx t h g
            (omega (arith, ap length p.inbox, length-event_frames ps)) p.ready p.inbox
            (subst (λ limit. All (λ p. length p ≤ limit) ps) (sym p.limit) fits) d))
