-- ===== src/Tcp/Ends.antt =====
-- The loops over frames end: what arrives bounds their rounds.
use fq_client_go.Common.{ℕ, zero, suc, ◌<◌, ◌≡◌, refl, Option, none, some, Bytes, arith}
use fq_client_go.Errors.{Error, Result, ok, err}
use fq_client_go.Exec.{◌>>◌}
use fq_client_go.Net.{Ctx}
use fq_client_go.Tcp.{Session, arm, receive}
use fq_client_go.Tcp.Shrink.{arriving, round-Takes}
use fq_client_go.Tcp.Chunked.{chunks, chunk_step, chunk_round, frame_round, Round, more, done}
use fq_client_go.Tcp.Stream.{Handler, frames, frame_step, after_handle}

module _ (body : Bytes) (next : Bytes → Session → Option (Result Bytes × Session)) where
  chunk_round_total :
      (round : Round) (t : Session)
      → ((grown : Bytes) → (r : Result Bytes × Session) × (next grown t ≡ some r))
      → (r : Result Bytes × Session) × (chunk_round round t next ≡ some r)
  unfolding chunk_round
  chunk_round_total (more grown) t h = h grown
  chunk_round_total (done r) t h = ((r, t), refl)

  chunk_step_total :
      (out : Result Bytes × Session)
      → ((frame : Bytes)
          → out.0 ≡ ok frame
          → (grown : Bytes) → (r : Result Bytes × Session) × (next grown out.1 ≡ some r))
      → (r : Result Bytes × Session) × (chunk_step body out next ≡ some r)
  unfolding chunk_step
  chunk_step_total (err e, t) h = ((err e, t), refl)
  chunk_step_total (ok frame, t) h = chunk_round_total (frame_round body frame) t (h frame refl)

-- `SendChunked` returns: with more fuel than bytes still arrive, its loop ends with a result.
pub chunks_total :
    (fuel : ℕ) (ctx : Ctx) (body : Bytes) (s : Session)
    → arriving s < fuel
    → (r : Result Bytes × Session) × (chunks fuel ctx body s ≡ some r)
unfolding chunks
chunks_total zero ctx body s h = absurd (omega arith)
chunks_total (suc fuel) ctx body s h =
    chunk_step_total body (λ grown t. chunks fuel ctx grown t) ((do arm ctx; receive) s)
      λ frame e grown.
        chunks_total fuel ctx grown ((do arm ctx; receive) s).1
          (omega (arith, (round-Takes ctx s).taken frame e))

module _ {H : Type 0} (handle : Handler H Bytes) where
  frame_step_total :
      (out : Result Bytes × Session) (h : H) (next : Session → H → Option (Error × Session × H))
      → ((frame : Bytes)
          → out.0 ≡ ok frame
          → (g : H) → (r : Error × Session × H) × (next out.1 g ≡ some r))
      → (r : Error × Session × H) × (frame_step handle out h next ≡ some r)
  unfolding frame_step
  frame_step_total (err e, t) h next k = ((e, t, h), refl)
  frame_step_total (ok frame, t) h next k = handled (handle frame h)
    where
      handled :
          (o : Option Error × H)
          → (r : Error × Session × H) × (after_handle o (λ e g. some (e, t, g)) (next t) ≡ some r)
      handled (some e, g) = ((e, t, g), refl)
      handled (none, g) = k frame refl g

  -- `Stream` returns when what arrives is used up: its loop ends with an error.
  pub frames_total :
      (fuel : ℕ) (ctx : Ctx) (s : Session) (h : H)
      → arriving s < fuel
      → (r : Error × Session × H) × (frames handle fuel ctx s h ≡ some r)
  unfolding frames
  frames_total zero ctx s h l = absurd (omega arith)
  frames_total (suc fuel) ctx s h l =
      frame_step_total ((do arm ctx; receive) s) h (λ t g. frames handle fuel ctx t g)
        λ frame e g.
          frames_total fuel ctx ((do arm ctx; receive) s).1 g
            (omega (arith, (round-Takes ctx s).taken frame e))
