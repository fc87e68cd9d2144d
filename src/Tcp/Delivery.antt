-- ===== src/Tcp/Delivery.antt =====
-- tcp_client.go: the frames of a stream reach the caller's function, each once and in order.
use fq_client_go.Common.{
  ℕ, zero, suc, ◌≤◌, ◌<◌, ◌≡◌, refl, ap, sym, ◌∙◌, subst, arith, Option, none, some, List, [], ◌∷◌,
  ◌++◌, append_assoc, append-nil, Bytes, codes, length, length-append, All,
}
use fq_client_go.Errors.{Error, message, Result, ok, err}
use fq_client_go.Exec.{◌>>◌}
use fq_client_go.Net.{Ctx}
use fq_client_go.Tcp.{Session, arm, receive, put_uint32, check_request, on_connection, write_frame}
use fq_client_go.Tcp.Frames.{frame}
use fq_client_go.Tcp.Progress.{IsReady, Progress, Succeeds, Progress-trans, Succeeds-then}
use fq_client_go.Tcp.Exchange.{round-Succeeds, check_request-Succeeds, arm-Succeeds, write-Succeeds}
use fq_client_go.Tcp.Chunked.{rounds, or_stuck}
use fq_client_go.Tcp.Stream.{Handler, after_handle, frames, frame_step, begun, stream}

-- The caller's function on one thing after another, until it returns an error.
unfoldable pub delivered :
    {H : Type 0} → Option Error × H → (H → Option Error × H) → Option Error × H
delivered (some e, h) next = (some e, h)
delivered (none, h) next = next h

unfoldable pub deliver : {H T : Type 0} → Handler H T → List T → H → Option Error × H
unfolding delivered
deliver handle [] h = (none, h)
deliver handle (x ∷ xs) h = delivered (handle x h) (deliver handle xs)

abbrev pub event_frames : List Bytes → Bytes
event_frames [] = []
event_frames (p ∷ ps) = frame p ++ event_frames ps

pub length-event_frames : (ps : List Bytes) → length ps ≤ length (event_frames ps)
unfolding put_uint32
length-event_frames [] = omega arith
length-event_frames (p ∷ ps) =
    omega (arith, length-append (frame p) (event_frames ps), length-event_frames ps)

-- The loop stopped with the error of the caller's function, and the connection still works.
pub record Stopped {H : Type 0} (out : Option (Error × Session × H)) (e : Error) (g : H)
    (s : Session) : Type 0 where
  pub session : Session
  pub left : Bytes
  pub result : out ≡ some (e, session, g)
  pub progress : Progress s session [] left

module _ {H : Type 0} (handle : Handler H Bytes) where
  pub frame_step-ok :
      (out : Result Bytes × Session) (p : Bytes) (h : H)
      (next : Session → H → Option (Error × Session × H))
      → out.0 ≡ ok p
      → frame_step handle out h next
        ≡ after_handle (handle p h) (λ e g. some (e, out.1, g)) (next out.1)
  unfolding frame_step
  frame_step-ok out p h next e = λ i. frame_step handle (e i, out.1) h next

  answer_cases :
      {s t : Session} {e : Error} {g : H} {left : Bytes} {again : H → Option (Error × Session × H)}
      (ps : List Bytes) (o : Option Error × H)
      → delivered o (deliver handle ps) ≡ (some e, g)
      → ((k : H) → deliver handle ps k ≡ (some e, g) → Stopped (again k) e g t)
      → Progress s t [] left
      → Stopped (after_handle o (λ x k. some (x, t, k)) again) e g s
  unfolding after_handle delivered
  answer_cases {s} {t} {left = left} ps (some x, k) q next p = record {
    session = t;
    left = left;
    result = ap (λ (o : Option Error × H). stop_with o) q;
    progress = p;
  }
    where
      stop_with : Option Error × H → Option (Error × Session × H)
      stop_with (none, k) = none
      stop_with (some x, k) = some (x, t, k)
  answer_cases {s} {t} {left = left} ps (none, k) q next p =
      let d = next k q in
      record {
        session = d.session;
        left = d.left;
        result = d.result;
        progress = Progress-trans s t d.session [] [] left d.left p d.progress;
      }

  frames-Stopped :
      (ps : List Bytes) (fuel : ℕ) (ctx : Ctx) (rest : Bytes) (s : Session) (h : H) (e : Error)
      (g : H)
      → length ps < fuel
      → IsReady s
      → s.client.connection.inbox ≡ event_frames ps ++ rest
      → All (λ p. length p ≤ s.client.max_message_size) ps
      → deliver handle ps h ≡ (some e, g)
      → Stopped (frames handle fuel ctx s h) e g s
  unfolding frames deliver
  frames-Stopped ps zero ctx rest s h e g enough ready there fits d = absurd (omega arith)
  frames-Stopped [] (suc fuel) ctx rest s h e g enough ready there fits d = absurd cc
  frames-Stopped (p ∷ ps) (suc fuel) ctx rest s h e g enough ready there (fit, fits) d =
      let round =
        round-Succeeds ctx p (event_frames ps ++ rest) s ready
          (there ∙ append_assoc (frame p) (event_frames ps) rest) fit in
      subst (λ o. Stopped o e g s)
        (sym (frame_step-ok ((do arm ctx; receive) s) p h _ round.result))
        (answer_cases ps (handle p h) d
          (λ k q.
            let t = ((do arm ctx; receive) s).1 in
            frames-Stopped ps fuel ctx rest t k e g (omega arith) round.progress.ready
              round.progress.inbox
              (subst (λ limit. All (λ p. length p ≤ limit) ps) (sym round.progress.limit) fits) q)
          round.progress)

-- A request alone.
pub request-Succeeds :
    (ctx : Ctx) (request left : Bytes) (s : Session)
    → IsReady s
    → s.client.connection.inbox ≡ left
    → length request ≤ s.client.max_message_size
    → Succeeds
        ((do check_request request; arm ctx; on_connection (write_frame request)) s)
        tt
        s
        (frame request)
        left
request-Succeeds ctx request left s r e fits =
    let checked = check_request-Succeeds request left s r e fits in
    let t = (check_request request s).1 in
    let armed = arm-Succeeds ctx left t checked.progress.ready checked.progress.inbox in
    let u = (arm ctx t).1 in
    Succeeds-then (check_request request s) _ tt tt s [] (frame request) left left checked (
      Succeeds-then (arm ctx t) _ tt tt t [] (frame request) left left armed
        (write-Succeeds request left u armed.progress.ready armed.progress.inbox (omega arith)))

-- `Stream` on a connection that works: the request is sent as one frame, the frames that arrive are
-- given to the caller's function in order, each once, and the first error that it returns is returned.
pub record Streamed {H : Type 0} (out : Error × Session × H) (e : Error) (g : H) (s : Session)
    (request : Bytes) : Type 0 where
  pub left : Bytes
  pub error : out.0 ≡ e
  pub handled : out.2 ≡ g
  pub progress : Progress s out.1 (frame request) left

module _ {H : Type 0} (handle : Handler H Bytes) where
  pub begun-Streamed :
      (ctx : Ctx) (request left : Bytes) (s : Session) (out : Result (Unit {0}) × Session) (h : H)
      (e : Error) (g : H)
      → Succeeds out tt s (frame request) left
      → Stopped (frames handle (rounds out.1) ctx out.1 h) e g out.1
      → Streamed (begun handle ctx out h) e g s request
  unfolding begun or_stuck
  begun-Streamed ctx request left s (err x, t) h e g b c = absurd (let r = b.result in cc)
  begun-Streamed ctx request left s (ok _, t) h e g b c =
      subst (λ o. Streamed (or_stuck o (message (codes "out of fuel"), t, h)) e g s request)
        (sym c.result)
        (record {
          left = c.left;
          error = refl;
          handled = refl;
          progress =
              subst (λ more. Progress s c.session more c.left) (append-nil (frame request))
                (Progress-trans s t c.session (frame request) [] _ c.left b.progress c.progress);
        })

  -- The bytes that arrive are more rounds than the frames need.
  enough_rounds :
      (ps : List Bytes) (s t : Session) (more rest : Bytes)
      → Progress s t more (event_frames ps ++ rest)
      → length ps < rounds t
  enough_rounds ps s t more rest p =
      omega (arith, ap length p.inbox, length-append (event_frames ps) rest, length-event_frames ps)

  pub stream-Streamed :
      (ctx : Ctx) (request : Bytes) (ps : List Bytes) (rest : Bytes) (s : Session) (h : H)
      (e : Error) (g : H)
      → IsReady s
      → s.client.connection.inbox ≡ event_frames ps ++ rest
      → length request ≤ s.client.max_message_size
      → All (λ p. length p ≤ s.client.max_message_size) ps
      → deliver handle ps h ≡ (some e, g)
      → Streamed (stream handle ctx request s h) e g s request
  unfolding stream
  stream-Streamed ctx request ps rest s h e g ready there fit fits d =
      let asked = request-Succeeds ctx request (event_frames ps ++ rest) s ready there fit in
      let p = asked.progress in
      let t = ((do check_request request; arm ctx; on_connection (write_frame request)) s).1 in
      begun-Streamed ctx request (event_frames ps ++ rest) s _ h e g asked (
        frames-Stopped handle ps (rounds t) ctx rest t h e g
          (enough_rounds ps s t (frame request) rest p) p.ready p.inbox
          (subst (λ limit. All (λ p. length p ≤ limit) ps) (sym p.limit) fits) d)
