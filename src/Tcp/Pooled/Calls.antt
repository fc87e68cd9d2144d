-- ===== src/Tcp/Pooled/Calls.antt =====
-- tcp_client.go: `Send`, `SendChunked` and `Stream` over the buffers of the pool.
use fq_client_go.Common.{
  ℕ, zero, suc, ◌≡◌, refl, ap, sym, ◌∙◌, subst, true, false, Option, none, some, Bytes, codes,
  length, length-replicate,
}
use fq_client_go.Errors.{Error, message, Result, ok, err}
use fq_client_go.Exec.{Exec, ◌>>◌, proceed}
use fq_client_go.Net.{Ctx}
use fq_client_go.Buffers.{BytesPool, get_bytes, put_bytes}
use fq_client_go.Buffers.Laws.{IsClean, get_bytes-zeroes, put_bytes-IsClean}
use fq_client_go.Tcp.{Session, check_request, arm, on_connection, write_frame, receive, send}
use fq_client_go.Tcp.Chunked.{rounds, or_stuck, send_chunked}
use fq_client_go.Tcp.Stream.{Handler, frame_step, frames, begun, stream, after_handle}
use fq_client_go.Tcp.Pooled.{
  Held, Pooled, receive_held, on_session, with_response, write_request, send_pooled, receive_round,
  chunks_pooled, send_chunked_pooled, frames_held, put_ended, begun_pooled, stream_pooled,
}
use fq_client_go.Tcp.Pooled.Reads.{write_request-Keeps}
use fq_client_go.Tcp.Pooled.Refinement.{
  Fits, Follows, plainly, chunks_plain, receive_held-Follows, receive_round-Follows,
  chunks_pooled-Follows, HasBuffers, Refines, with_response-Refines, on_session-Refines,
  Refines-then,
}

module _ {A B C : Type 0} where
  proceed_assoc :
      (out : Result A × Session) (f : A → Exec Session B) (g : B → Exec Session C)
      → proceed (proceed out f) g ≡ proceed out (λ a t. proceed (f a t) g)
  proceed_assoc (ok a, t) f g = refl
  proceed_assoc (err e, t) f g = refl

module _ {A B : Type 0} where
  proceed_cong :
      (out : Result A × Session) (f g : A → Exec Session B)
      → ((a : A) (t : Session) → f a t ≡ g a t)
      → proceed out f ≡ proceed out g
  proceed_cong (ok a, t) f g h = h a t
  proceed_cong (err e, t) f g h = refl

-- The request is written first, in all calls.
write_request-then :
    {A : Type 0} (ctx : Ctx) (request : Bytes) (s : Session) (next : Exec Session A)
    → proceed (write_request ctx request s) (λ _. next)
      ≡ (do check_request request; arm ctx; on_connection (write_frame request); next) s
unfolding write_request
write_request-then ctx request s next =
    proceed_assoc (check_request request s) _ (λ _. next)
    ∙ proceed_cong (check_request request s) _ _
        (λ _ t. proceed_assoc (arm ctx t) (λ _. on_connection (write_frame request)) (λ _. next))

module _ {A : Type 0} (choice : Option ℕ) (ctx : Ctx) (request : Bytes) where
  request-Refines :
      (body : Exec Held A) (plain : Exec Session A) (p : Pooled)
      → HasBuffers p
      → ((n : ℕ) (h : Held) → Fits n h → Follows n (body h) (plain h.session))
      → Refines ((do on_session (write_request ctx request); with_response choice body) p) (
          (do check_request request; arm ctx; on_connection (write_frame request); plain) p.session)
  request-Refines body plain p b k =
      subst (Refines ((do on_session (write_request ctx request); with_response choice body) p))
        (write_request-then ctx request p.session plain)
        (Refines-then (on_session (write_request ctx request) p)
          (write_request ctx request p.session) _ _
          (on_session-Refines (write_request ctx request) p (write_request-Keeps ctx request) b)
          λ _ q c. with_response-Refines choice body plain q c (λ h f. k q.pool.size h f))

-- `Send` over a pool whose buffers are clean returns what it returns with a fresh buffer, whichever
-- buffer the pool hands out, leaves the client as that does, and leaves the buffers clean again.
pub send_pooled-Refines :
    (choice : Option ℕ) (ctx : Ctx) (request : Bytes) (p : Pooled)
    → HasBuffers p
    → Refines (send_pooled choice ctx request p) (send ctx request p.session)
unfolding send_pooled send
send_pooled-Refines choice ctx request p b =
    request-Refines choice ctx request receive_held receive p b
      (λ n h f. receive_held-Follows n h f)

-- `SendChunked` reads all its frames into one buffer of the pool, whose bytes stay from frame to
-- frame, and returns what it returns with a fresh buffer for each frame; the client is left as by
-- that, and the buffers are clean again.
pub send_chunked_pooled-Refines :
    (choice : Option ℕ) (ctx : Ctx) (request : Bytes) (p : Pooled)
    → HasBuffers p
    → Refines (send_chunked_pooled choice ctx request p) (send_chunked ctx request p.session)
unfolding send_chunked_pooled send_chunked
send_chunked_pooled-Refines choice ctx request p b =
    request-Refines choice ctx request (chunks_pooled ctx) (chunks_plain ctx) p b
      (λ n h f. chunks_pooled-Follows n ctx h f)

module _ {H : Type 0} where
  -- What the end of a stream over a held buffer owes the end without one.
  record Ends (n : ℕ) (out : Error × Held × H) (plain : Error × Session × H) : Type 0 where
    same : plain ≡ (out.0, out.1.session, out.2)
    fits : Fits n out.1

  abbrev EndsOr : ℕ → Option (Error × Held × H) → Option (Error × Session × H) → Type 0
  EndsOr n none none = Unit
  EndsOr n none (some p) = false ≡ true
  EndsOr n (some o) none = false ≡ true
  EndsOr n (some o) (some p) = Ends n o p

  module _ (handle : Handler H Bytes) (n : ℕ) where
    frame_step-EndsOr :
        (out : Result Bytes × Held) (plain : Result Bytes × Session) (g : H)
        (next : Held → H → Option (Error × Held × H))
        (again : Session → H → Option (Error × Session × H))
        → Follows n out plain
        → ((h : Held) (k : H) → Fits n h → EndsOr n (next h k) (again h.session k))
        → EndsOr n (frame_step handle out g next) (frame_step handle plain g again)
    unfolding frame_step after_handle
    frame_step-EndsOr out plain g next again l k =
        subst (λ p. EndsOr n (frame_step handle out g next) (frame_step handle p g again))
          (sym l.same) (run out l.fits)
      where
        handled :
            (h : Held) (o : Option Error × H)
            → Fits n h
            → EndsOr n
                (after_handle o (λ e x. some (e, h, x)) (next h))
                (after_handle o (λ e x. some (e, h.session, x)) (again h.session))
        handled h (some e, x) f = record { same = refl; fits = f }
        handled h (none, x) f = k h x f

        run :
            (out : Result Bytes × Held)
            → Fits n out.1
            → EndsOr n (frame_step handle out g next) (frame_step handle (plainly n out) g again)
        run (err e, h) f = record { same = refl; fits = f }
        run (ok frame, h) f = handled h (handle frame g) f

    frames_held-EndsOr :
        (fuel : ℕ) (ctx : Ctx) (h : Held) (g : H)
        → Fits n h
        → EndsOr n (frames_held handle fuel ctx h g) (frames handle fuel ctx h.session g)
    unfolding frames_held frames
    frames_held-EndsOr zero ctx h g f = tt
    frames_held-EndsOr (suc fuel) ctx h g f =
        frame_step-EndsOr (receive_round ctx h) _ g _ _ (receive_round-Follows n ctx h f)
          (λ t k x. frames_held-EndsOr fuel ctx t k x)

    or_stuck-Ends :
        (o : Option (Error × Held × H)) (p : Option (Error × Session × H)) (h : Held) (e : Error)
        (g : H)
        → Fits n h
        → EndsOr n o p
        → Ends n (or_stuck o (e, h, g)) (or_stuck p (e, h.session, g))
    unfolding or_stuck
    or_stuck-Ends none none h e g f m = record { same = refl; fits = f }
    or_stuck-Ends none (some p) h e g f m = cc
    or_stuck-Ends (some o) none h e g f m = cc
    or_stuck-Ends (some o) (some p) h e g f m = m

  -- What a stream over the pool owes the stream with a fresh buffer for each frame.
  pub record EndsAlike (out : Error × Pooled × H) (plain : Error × Session × H) : Type 0 where
    pub failure : out.0 ≡ plain.0
    pub session : out.1.session ≡ plain.1
    pub handled : out.2 ≡ plain.2
    pub buffers : HasBuffers out.1

  put_ended-EndsAlike :
      (handle : Handler H Bytes) (pool : BytesPool) (out : Error × Held × H)
      (plain : Error × Session × H)
      → IsClean pool
      → Ends pool.size out plain
      → EndsAlike (put_ended handle pool out) plain
  unfolding put_ended put_bytes
  put_ended-EndsAlike handle pool (e, h, g) plain c l = record {
    failure = ap (λ (o : Error × Session × H). o.0) (sym l.same);
    session = ap (λ (o : Error × Session × H). o.1) (sym l.same);
    handled = ap (λ (o : Error × Session × H). o.2) (sym l.same);
    buffers = record { clean = put_bytes-IsClean h.buffer pool l.fits.0 c; size = l.fits.1 };
  }

  begun_pooled-EndsAlike :
      (handle : Handler H Bytes) (choice : Option ℕ) (ctx : Ctx) (out : Result (Unit {0}) × Pooled)
      (g : H)
      → HasBuffers out.1
      → EndsAlike (begun_pooled handle choice ctx out g) (begun handle ctx (out.0, out.1.session) g)
  unfolding begun_pooled begun get_bytes
  begun_pooled-EndsAlike handle choice ctx (err e, p) g b = record {
    failure = refl;
    session = refl;
    handled = refl;
    buffers = b;
  }
  begun_pooled-EndsAlike handle choice ctx (ok _, p) g b =
      let (zero_bytes, c) = get_bytes-zeroes choice p.pool b.clean in
      let h : Held = record { session = p.session; buffer = (get_bytes choice p.pool).0 } in
      let f : Fits p.pool.size h =
        (ap length zero_bytes ∙ length-replicate p.pool.size 0, b.size) in
      put_ended-EndsAlike handle (get_bytes choice p.pool).1 _ _ c (
        or_stuck-Ends handle p.pool.size _ _ h (message (codes "out of fuel")) g f
          (frames_held-EndsOr handle p.pool.size (rounds p.session) ctx h g f))

-- `Stream` reads all its frames into one buffer of the pool. It ends with the error that it ends with
-- when each frame has a fresh buffer, the caller's function saw the same, the client is left as by
-- that, and the buffers are clean again.
pub stream_pooled-EndsAlike :
    {H : Type 0} (handle : Handler H Bytes) (choice : Option ℕ) (ctx : Ctx) (request : Bytes)
    (p : Pooled) (g : H)
    → HasBuffers p
    → EndsAlike
        (stream_pooled handle choice ctx request p g)
        (stream handle ctx request p.session g)
unfolding stream_pooled stream
stream_pooled-EndsAlike handle choice ctx request p g b =
    let r = on_session-Refines (write_request ctx request) p (write_request-Keeps ctx request) b in
    subst
      (λ out.
        EndsAlike (begun_pooled handle choice ctx (on_session (write_request ctx request) p) g)
          (begun handle ctx out g))
      (λ i. (r.result i, r.session i))
      (begun_pooled-EndsAlike handle choice ctx (on_session (write_request ctx request) p) g
        r.buffers)
