-- ===== src/Tcp/Exchange.antt =====
-- One request and its response on a connection that works.
use fq_client_go.Common.{
  ℕ, ◌^◌, ◌≤◌, ◌<◌, ◌≡◌, refl, sym, ◌∙◌, subst, false, [], ◌++◌, append-nil, Bytes, length, ltb,
  arith,
}
use fq_client_go.Errors.{ok}
use fq_client_go.Exec.{Exec, ◌>>◌}
use fq_client_go.Net.{Wire, Ctx, set_deadline, now}
use fq_client_go.Tcp.{
  Session, on_connection, arm, check_request, receive, send, write_frame, deadline,
}
use fq_client_go.Tcp.Frames.{frame}
use fq_client_go.Tcp.Frames.Sends.{write_frame-Sends}
use fq_client_go.Tcp.Frames.Reads.{read_frame_into-frame}
use fq_client_go.Tcp.Progress.{IsReady, Succeeds, Succeeds-then}

pub check_request-Succeeds :
    (request left : Bytes) (s : Session)
    → IsReady s
    → s.client.connection.inbox ≡ left
    → length request ≤ s.client.max_message_size
    → Succeeds (check_request request s) tt s [] left
unfolding check_request
check_request-Succeeds request left s r e h =
    let fits : ltb s.client.max_message_size (length request) ≡ false = ground arith in
    rw fits (record {
      result = refl;
      progress = record {
        sent = sym (append-nil _);
        inbox = e;
        limit = refl;
        fault = refl;
        token = refl;
        dials = refl;
        ctx_errors = refl;
        ready = r;
      };
    })

set_deadline-calm :
    (d : ℕ) (w : Wire)
    → w.closed ≡ false
    → w.deadline_steps ≡ []
    → set_deadline d w ≡ (ok tt, record w { deadline_steps = []; deadline = d })
unfolding set_deadline
set_deadline-calm d w c e = simp (c, e)

pub arm-Succeeds :
    (ctx : Ctx) (left : Bytes) (s : Session)
    → IsReady s
    → s.client.connection.inbox ≡ left
    → Succeeds (arm ctx s) tt s [] left
unfolding arm on_connection now
arm-Succeeds ctx left s r e =
    rw
      (set_deadline-calm (deadline (now s.env).0 s.client.idle_timeout ctx) s.client.connection
        r.wire.open_wire r.deadlines)
      (record {
        result = refl;
        progress = record {
          sent = sym (append-nil _);
          inbox = e;
          limit = refl;
          fault = refl;
          token = refl;
          dials = refl;
          ctx_errors = refl;
          ready = record {
            wire = record { open_wire = r.wire.open_wire; calm = r.wire.calm };
            deadlines = refl;
            room = r.room;
            small = r.small;
          };
        };
      })

-- A write through `on_connection`.
pub write-Succeeds :
    (request left : Bytes) (s : Session)
    → IsReady s
    → s.client.connection.inbox ≡ left
    → length request < 2 ^ 32
    → Succeeds (on_connection (write_frame request) s) tt s (frame request) left
unfolding on_connection
write-Succeeds request left s r e small =
    let h = write_frame-Sends request s.client.connection small r.wire in
    rw h.success (record {
      result = refl;
      progress = record {
        sent = h.wrote.sent;
        inbox = h.wrote.inbox ∙ e;
        limit = refl;
        fault = h.wrote.fault;
        token = refl;
        dials = refl;
        ctx_errors = refl;
        ready = record {
          wire = h.still_open;
          deadlines = h.wrote.deadline_steps ∙ r.deadlines;
          room = r.room;
          small = r.small;
        };
      };
    })

pub receive-Succeeds :
    (p rest : Bytes) (s : Session)
    → IsReady s
    → s.client.connection.inbox ≡ frame p ++ rest
    → length p ≤ s.client.max_message_size
    → Succeeds (receive s) p s [] rest
unfolding receive on_connection
receive-Succeeds p rest s r e fits =
    rw
      (read_frame_into-frame s.client.max_message_size s.client.buffer_size p rest
        s.client.connection r.wire.open_wire r.small fits (omega (arith, r.room)) e)
      (record {
        result = refl;
        progress = record {
          sent = sym (append-nil _);
          inbox = refl;
          limit = refl;
          fault = refl;
          token = refl;
          dials = refl;
          ctx_errors = refl;
          ready = record {
            wire = record { open_wire = r.wire.open_wire; calm = r.wire.calm };
            deadlines = r.deadlines;
            room = r.room;
            small = r.small;
          };
        };
      })

-- A round of a loop over frames.
pub round-Succeeds :
    (ctx : Ctx) (p rest : Bytes) (s : Session)
    → IsReady s
    → s.client.connection.inbox ≡ frame p ++ rest
    → length p ≤ s.client.max_message_size
    → Succeeds ((do arm ctx; receive) s) p s [] rest
round-Succeeds ctx p rest s r e fits =
    let armed = arm-Succeeds ctx (frame p ++ rest) s r e in
    Succeeds-then (arm ctx s) _ tt p s [] [] (frame p ++ rest) rest armed (
      receive-Succeeds p rest (arm ctx s).1 armed.progress.ready armed.progress.inbox
        (omega (arith, armed.progress.limit)))

-- A request, and then a step that reads what arrives.
pub request-then :
    {A : Type 0} (ctx : Ctx) (request left rest : Bytes) (s : Session) (last : Exec Session A)
    (a : A)
    → IsReady s
    → s.client.connection.inbox ≡ left
    → length request ≤ s.client.max_message_size
    → ((v : Session)
        → IsReady v
        → v.client.connection.inbox ≡ left
        → v.client.max_message_size ≡ s.client.max_message_size
        → Succeeds (last v) a v [] rest)
    → Succeeds
        ((do check_request request; arm ctx; on_connection (write_frame request); last) s)
        a
        s
        (frame request)
        rest
request-then ctx request left rest s last a r e fits step =
    let checked = check_request-Succeeds request left s r e fits in
    let t = (check_request request s).1 in
    let armed = arm-Succeeds ctx left t checked.progress.ready checked.progress.inbox in
    let u = (arm ctx t).1 in
    let wrote =
      write-Succeeds request left u armed.progress.ready armed.progress.inbox (omega arith) in
    let v = (on_connection (write_frame request) u).1 in
    let same = wrote.progress.limit ∙ armed.progress.limit ∙ checked.progress.limit in
    subst
      (λ more.
        Succeeds ((do check_request request; arm ctx; on_connection (write_frame request); last) s)
          a s more rest)
      (append-nil (frame request))
      (Succeeds-then (check_request request s) _ tt a s [] (frame request ++ []) left rest checked (
        Succeeds-then (arm ctx t) _ tt a t [] (frame request ++ []) left rest armed (
          Succeeds-then (on_connection (write_frame request) u) _ tt a u (frame request) [] left
            rest wrote (step v wrote.progress.ready wrote.progress.inbox same))))

-- On a connection that works, a request within the limit is sent as one frame, and the response
-- frame that arrives next, if it is within the limit, is returned; what stands behind it stays.
pub send-Succeeds :
    (ctx : Ctx) (request p rest : Bytes) (s : Session)
    → IsReady s
    → s.client.connection.inbox ≡ frame p ++ rest
    → length request ≤ s.client.max_message_size
    → length p ≤ s.client.max_message_size
    → Succeeds (send ctx request s) p s (frame request) rest
unfolding send
send-Succeeds ctx request p rest s r e fits small =
    request-then ctx request (frame p ++ rest) rest s receive p r e fits
      λ v ready arrived same. receive-Succeeds p rest v ready arrived (omega (arith, same))
