-- ===== src/Tcp/Pooled/Refinement.antt =====
-- tcp_client.go: the calls over pooled buffers are the calls over fresh ones.
use fq_client_go.Common.{
  ℕ, zero, suc, ◌≡◌, refl, ap, sym, ◌∙◌, subst, true, false, Option, none, some, [], Bytes, codes,
  length, length-replicate,
}
use fq_client_go.Errors.{Error, message, Result, ok, err}
use fq_client_go.Exec.{Exec, ◌>>◌, proceed}
use fq_client_go.Net.{Ctx}
use fq_client_go.Buffers.{BytesPool, get_bytes, put_bytes}
use fq_client_go.Buffers.Laws.{IsClean, get_bytes-zeroes, put_bytes-IsClean}
use fq_client_go.Tcp.{Session, arm, on_connection, receive, read_frame_into}
use fq_client_go.Tcp.Chunked.{
  chunk_step, chunk_round, frame_round, chunks, rounds, or_stuck, Round, more, done,
}
use fq_client_go.Tcp.Pooled.{
  read_frame_into_buffer, Held, Pooled, normalized, after_read, receive_held, keep_held, on_held,
  keep_pool, on_session, put_back, with_response, receive_round, chunks_held, chunks_pooled,
}
use fq_client_go.Tcp.Pooled.Reads.{
  map_error-normalized, IsRead, read_frame_into_buffer-IsRead, Keeps, arm-Keeps,
}

-- The loop of `SendChunked`, as `send_chunked` runs it.
abbrev pub chunks_plain : Ctx → Exec Session Bytes
chunks_plain ctx s = or_stuck (chunks (rounds s) ctx [] s) (err (message (codes "out of fuel")), s)

module _ (n : ℕ) where
  -- The held buffer and the client's buffers have the size `n`.
  abbrev pub Fits : Held → Type 0
  Fits h = (length h.buffer ≡ n) × (h.session.client.buffer_size ≡ n)

  abbrev pub plainly : {A : Type 0} → Result A × Held → Result A × Session
  plainly out = (out.0, out.1.session)

  -- A step that holds a buffer does what the step without one does.
  pub record Follows {A : Type 0} (out : Result A × Held) (plain : Result A × Session)
      : Type 0 where
    pub same : plain ≡ plainly out
    pub fits : Fits out.1

  pub receive_held-Follows : (h : Held) → Fits h → Follows (receive_held h) (receive h.session)
  unfolding receive_held after_read receive on_connection
  receive_held-Follows h f =
      let limit = h.session.client.max_message_size in
      let wire = h.session.client.connection in
      let k =
        subst
          (λ n.
            IsRead h.buffer (read_frame_into_buffer limit h.buffer wire)
              (read_frame_into limit n wire))
          (f.0 ∙ sym f.1) (read_frame_into_buffer-IsRead limit h.buffer wire) in
      let plain = read_frame_into limit h.session.client.buffer_size wire in
      subst (Follows (receive_held h))
        (sym (
          map_error-normalized plain.0
            (record h.session { client = record h.session.client { connection = plain.1 } })))
        (record {
          same = λ i. (
            normalized (k.result (i)),
            record h.session { client = record h.session.client { connection = k.wire i } },
          );
          fits = (k.room ∙ f.0, f.1);
        })

  module _ {A : Type 0} where
    on_held-Follows :
        (step : Exec Session A) (h : Held)
        → Keeps step
        → Fits h
        → Follows (on_held step h) (step h.session)
    unfolding on_held keep_held
    on_held-Follows step h k f = record { same = refl; fits = (f.0, k h.session ∙ f.1) }

    Follows-then :
        {B : Type 0} (out : Result A × Held) (plain : Result A × Session) (f : A → Exec Held B)
        (g : A → Exec Session B)
        → Follows out plain
        → ((a : A) (h : Held) → Fits h → Follows (f a h) (g a h.session))
        → Follows (proceed out f) (proceed plain g)
    Follows-then out plain f g l k =
        subst (λ p. Follows (proceed out f) (proceed p g)) (sym l.same) (run out l.fits)
      where
        run :
            (out : Result A × Held) → Fits out.1 → Follows (proceed out f) (proceed (plainly out) g)
        run (ok a, h) x = k a h x
        run (err e, h) x = record { same = refl; fits = x }

  pub receive_round-Follows :
      (ctx : Ctx) (h : Held)
      → Fits h
      → Follows (receive_round ctx h) ((do arm ctx; receive) h.session)
  unfolding receive_round
  receive_round-Follows ctx h f =
      Follows-then (on_held (arm ctx) h) (arm ctx h.session) _ _
        (on_held-Follows (arm ctx) h (arm-Keeps ctx) f) (λ _ g x. receive_held-Follows g x)

  -- Both loops run out of fuel, or neither does.
  abbrev Matches : Option (Result Bytes × Held) → Option (Result Bytes × Session) → Type 0
  Matches none none = Unit
  Matches none (some p) = false ≡ true
  Matches (some o) none = false ≡ true
  Matches (some o) (some p) = Follows o p

  chunk_step-Matches :
      (body : Bytes) (out : Result Bytes × Held) (plain : Result Bytes × Session)
      (next : Bytes → Held → Option (Result Bytes × Held))
      (again : Bytes → Session → Option (Result Bytes × Session))
      → Follows out plain
      → ((grown : Bytes) (h : Held) → Fits h → Matches (next grown h) (again grown h.session))
      → Matches (chunk_step body out next) (chunk_step body plain again)
  unfolding chunk_step chunk_round
  chunk_step-Matches body out plain next again l k =
      subst (λ p. Matches (chunk_step body out next) (chunk_step body p again)) (sym l.same)
        (run out l.fits)
    where
      round :
          (r : Round) (h : Held)
          → Fits h
          → Matches (chunk_round r h next) (chunk_round r h.session again)
      round (more grown) h f = k grown h f
      round (done r) h f = record { same = refl; fits = f }

      run :
          (out : Result Bytes × Held)
          → Fits out.1
          → Matches (chunk_step body out next) (chunk_step body (plainly out) again)
      run (err e, h) f = record { same = refl; fits = f }
      run (ok frame, h) f = round (frame_round body frame) h f

  chunks_held-Matches :
      (fuel : ℕ) (ctx : Ctx) (body : Bytes) (h : Held)
      → Fits h
      → Matches (chunks_held fuel ctx body h) (chunks fuel ctx body h.session)
  unfolding chunks_held chunks
  chunks_held-Matches zero ctx body h f = tt
  chunks_held-Matches (suc fuel) ctx body h f =
      chunk_step-Matches body (receive_round ctx h) _ _ _ (receive_round-Follows ctx h f)
        (λ grown g x. chunks_held-Matches fuel ctx grown g x)

  or_stuck-Follows :
      (o : Option (Result Bytes × Held)) (p : Option (Result Bytes × Session)) (h : Held)
      (e : Error)
      → Fits h
      → Matches o p
      → Follows (or_stuck o (err e, h)) (or_stuck p (err e, h.session))
  unfolding or_stuck
  or_stuck-Follows none none h e f m = record { same = refl; fits = f }
  or_stuck-Follows none (some p) h e f m = cc
  or_stuck-Follows (some o) none h e f m = cc
  or_stuck-Follows (some o) (some p) h e f m = m

  pub chunks_pooled-Follows :
      (ctx : Ctx) (h : Held) → Fits h → Follows (chunks_pooled ctx h) (chunks_plain ctx h.session)
  unfolding chunks_pooled
  chunks_pooled-Follows ctx h f =
      or_stuck-Follows _ _ h (message (codes "out of fuel")) f
        (chunks_held-Matches (rounds h.session) ctx [] h f)

-- The pool's buffers are clean and have the size that the client's buffers have.
pub record HasBuffers (p : Pooled) : Type 0 where
  pub clean : IsClean p.pool
  pub size : p.session.client.buffer_size ≡ p.pool.size

-- What a call over the pool owes the call without one.
pub record Refines {A : Type 0} (out : Result A × Pooled) (plain : Result A × Session)
    : Type 0 where
  pub result : out.0 ≡ plain.0
  pub session : out.1.session ≡ plain.1
  pub buffers : HasBuffers out.1

module _ {A : Type 0} where
  pub put_back-Refines :
      (pool : BytesPool) (out : Result A × Held) (plain : Result A × Session)
      → IsClean pool
      → Follows pool.size out plain
      → Refines (put_back pool out) plain
  unfolding put_back put_bytes
  put_back-Refines pool (r, h) plain c l = record {
    result = ap (λ (o : Result A × Session). o.0) (sym l.same);
    session = ap (λ (o : Result A × Session). o.1) (sym l.same);
    buffers = record { clean = put_bytes-IsClean h.buffer pool l.fits.0 c; size = l.fits.1 };
  }

  pub with_response-Refines :
      (choice : Option ℕ) (body : Exec Held A) (plain : Exec Session A) (p : Pooled)
      → HasBuffers p
      → ((h : Held) → Fits p.pool.size h → Follows p.pool.size (body h) (plain h.session))
      → Refines (with_response choice body p) (plain p.session)
  unfolding with_response get_bytes
  with_response-Refines choice body plain p b k =
      let (zero_bytes, c) = get_bytes-zeroes choice p.pool b.clean in
      put_back-Refines (get_bytes choice p.pool).1 _ (plain p.session) c (
        k (record { session = p.session; buffer = (get_bytes choice p.pool).0 })
          (ap length zero_bytes ∙ length-replicate p.pool.size 0, b.size))

  pub on_session-Refines :
      (step : Exec Session A) (p : Pooled)
      → Keeps step
      → HasBuffers p
      → Refines (on_session step p) (step p.session)
  unfolding on_session keep_pool
  on_session-Refines step p k b = record {
    result = refl;
    session = refl;
    buffers = record { clean = b.clean; size = k p.session ∙ b.size };
  }

  pub Refines-then :
      {B : Type 0} (out : Result A × Pooled) (plain : Result A × Session) (f : A → Exec Pooled B)
      (g : A → Exec Session B)
      → Refines out plain
      → ((a : A) (p : Pooled) → HasBuffers p → Refines (f a p) (g a p.session))
      → Refines (proceed out f) (proceed plain g)
  Refines-then (ok a, p) plain f g l k =
      subst (λ q. Refines (f a p) (proceed q g)) (λ i. (l.result i, l.session i)) (k a p l.buffers)
  Refines-then (err e, p) plain f g l k =
      subst (λ q. Refines (err e, p) (proceed q g)) (λ i. (l.result i, l.session i))
        (record { result = refl; session = refl; buffers = l.buffers })
