-- ===== src/Tcp/Reassembly.antt =====
-- A response in several frames is put together again.
use fq_client_go.Common.{
  ℕ, zero, suc, ◌+◌, ◌≤◌, ◌<◌, ◌≡◌, refl, ap, sym, ◌∙◌, subst, Option, some, List, [], ◌∷◌, ◌++◌,
  append_assoc, append-nil, Bytes, length, length-append, All, arith,
}
use fq_client_go.Errors.{Result, ok}
use fq_client_go.Text.{bytes_eq}
use fq_client_go.Text.Cut.{index_byte-append}
use fq_client_go.Exec.{◌>>◌}
use fq_client_go.Net.{Ctx}
use fq_client_go.Response.{resp_delimiter, frame_status_ok, frame_status_error, frame_status_next}
use fq_client_go.Tcp.{Session, arm, receive, put_uint32}
use fq_client_go.Tcp.Frames.{frame}
use fq_client_go.Tcp.Progress.{IsReady, Progress, Succeeds, Progress-trans}
use fq_client_go.Tcp.Exchange.{round-Succeeds, request-then}
use fq_client_go.Tcp.Chunked.{
  chunks, chunk_step, chunk_round, frame_round, status_round, Round, more, done, rounds, or_stuck,
  send_chunked, join_status_and_data,
}

-- The frames of a response: `nxt` parts, and one last part with its own status.
abbrev pub status_frame : Bytes → Bytes → Bytes
status_frame status part = frame (status ++ resp_delimiter ∷ part)

abbrev pub chunk_frames : List Bytes → Bytes → Bytes
chunk_frames [] last = last
chunk_frames (p ∷ ps) last = status_frame frame_status_next p ++ chunk_frames ps last

abbrev pub glue : List Bytes → Bytes
glue [] = []
glue (p ∷ ps) = p ++ glue ps

-- A part that a frame within the limit can carry.
abbrev pub PartFits : ℕ → Bytes → Type 0
PartFits limit p = length p + 4 ≤ limit

frame_round-next :
    (body part : Bytes)
    → frame_round body (frame_status_next ++ resp_delimiter ∷ part) ≡ more (body ++ part)
unfolding frame_round status_round bytes_eq
frame_round-next body part =
    rw (index_byte-append resp_delimiter frame_status_next part (omega arith), frame_round)

frame_round-ok :
    (body part : Bytes)
    → frame_round body (frame_status_ok ++ resp_delimiter ∷ part)
      ≡ done (ok (join_status_and_data frame_status_ok (body ++ part)))
unfolding frame_round status_round bytes_eq
frame_round-ok body part =
    rw (index_byte-append resp_delimiter frame_status_ok part (omega arith), frame_round)

frame_round-error :
    (body part : Bytes)
    → frame_round body (frame_status_error ++ resp_delimiter ∷ part)
      ≡ done (ok (join_status_and_data frame_status_error part))
unfolding frame_round status_round bytes_eq
frame_round-error body part =
    rw (index_byte-append resp_delimiter frame_status_error part (omega arith), frame_round)

-- The loop returned `r` and left `rest`.
record Loops (out : Option (Result Bytes × Session)) (r : Bytes) (s : Session) (rest : Bytes)
    : Type 0 where
  session : Session
  result : out ≡ some (ok r, session)
  progress : Progress s session [] rest

chunk_step-ok :
    (body : Bytes) (out : Result Bytes × Session) (f : Bytes) (round : Round)
    (next : Bytes → Session → Option (Result Bytes × Session))
    → out.0 ≡ ok f
    → frame_round body f ≡ round
    → chunk_step body out next ≡ chunk_round round out.1 next
unfolding chunk_step
chunk_step-ok body out f round next e q =
    (λ i. chunk_step body (e i, out.1) next) ∙ ap (λ x. chunk_round x out.1 next) q

length-status_frame :
    (limit : ℕ) (p : Bytes)
    → PartFits limit p
    → length (frame_status_next ++ resp_delimiter ∷ p) ≤ limit
length-status_frame limit p h = omega arith

chunks-Loops :
    (ps : List Bytes) (fuel : ℕ) (ctx : Ctx) (body last r rest : Bytes) (s : Session)
    → length ps < fuel
    → IsReady s
    → s.client.connection.inbox ≡ chunk_frames ps (frame last) ++ rest
    → All (PartFits s.client.max_message_size) ps
    → length last ≤ s.client.max_message_size
    → frame_round (body ++ glue ps) last ≡ done (ok r)
    → Loops (chunks fuel ctx body s) r s rest
unfolding chunks
chunks-Loops ps zero ctx body last r rest s enough ready e parts fits q = absurd (omega arith)
chunks-Loops [] (suc fuel) ctx body last r rest s enough ready e parts fits q =
    let round = round-Succeeds ctx last rest s ready e fits in
    record {
      session = ((do arm ctx; receive) s).1;
      result =
          chunk_step-ok body ((do arm ctx; receive) s) last (done (ok r)) _ round.result
            (ap (λ (b : Bytes). frame_round b last) (sym (append-nil body)) ∙ q);
      progress = round.progress;
    }
chunks-Loops (p ∷ ps) (suc fuel) ctx body last r rest s enough ready e (part, parts) fits q =
    let later = chunk_frames ps (frame last) ++ rest in
    let payload = frame_status_next ++ resp_delimiter ∷ p in
    let round =
      round-Succeeds ctx payload later s ready
        (e ∙ append_assoc (frame payload) (chunk_frames ps (frame last)) rest)
        (length-status_frame s.client.max_message_size p part) in
    let t = ((do arm ctx; receive) s).1 in
    let same = sym round.progress.limit in
    let next =
      chunks-Loops ps fuel ctx (body ++ p) last r rest t (omega arith) round.progress.ready
        round.progress.inbox (subst (λ limit. All (PartFits limit) ps) same parts)
        (omega (arith, same))
        (ap (λ (b : Bytes). frame_round b last) (append_assoc body p (glue ps)) ∙ q) in
    record {
      session = next.session;
      result =
          chunk_step-ok body ((do arm ctx; receive) s) payload (more (body ++ p)) _ round.result
            (frame_round-next body p)
          ∙ next.result;
      progress = Progress-trans s t next.session [] [] later rest round.progress next.progress;
    }

length-chunk_frames : (ps : List Bytes) (last : Bytes) → length ps ≤ length (chunk_frames ps last)
unfolding put_uint32
length-chunk_frames [] last = omega arith
length-chunk_frames (p ∷ ps) last = omega (
  arith,
  length-append (status_frame frame_status_next p) (chunk_frames ps last),
  length-chunk_frames ps last,
)

Loops-or_stuck :
    (out : Option (Result Bytes × Session)) (stuck : Result Bytes × Session) (r rest : Bytes)
    (s : Session)
    → Loops out r s rest
    → Succeeds (or_stuck out stuck) r s [] rest
unfolding or_stuck
Loops-or_stuck out stuck r rest s h = rw h.result (record { result = refl; progress = h.progress })

-- The general form: the last frame is one that ends the loop with `r`.
module _ (ctx : Ctx) (request : Bytes) (ps : List Bytes) (last r rest : Bytes) (s : Session)
    (ready : IsReady s) (arrives : s.client.connection.inbox ≡ chunk_frames ps (frame last) ++ rest)
    (request_fits : length request ≤ s.client.max_message_size)
    (parts : All (PartFits s.client.max_message_size) ps)
    (fits : length last ≤ s.client.max_message_size) where
  last-Succeeds :
      frame_round (glue ps) last ≡ done (ok r)
      → Succeeds (send_chunked ctx request s) r s (frame request) rest
  unfolding send_chunked
  last-Succeeds q =
      request-then ctx request (chunk_frames ps (frame last) ++ rest) rest s _ r ready arrives
        request_fits
        λ v calm there same. Loops-or_stuck _ _ r rest v (
          chunks-Loops ps (rounds v) ctx [] last r rest v
            (omega (
              arith,
              ap length there,
              length-chunk_frames ps (frame last),
              length-append (chunk_frames ps (frame last)) rest,
            ))
            calm there (subst (λ limit. All (PartFits limit) ps) (sym same) parts)
            (omega (arith, same)) q)

module _ (ctx : Ctx) (request : Bytes) (ps : List Bytes) (last rest : Bytes) (s : Session)
    (ready : IsReady s) (request_fits : length request ≤ s.client.max_message_size)
    (parts : All (PartFits s.client.max_message_size) ps)
    (fits : PartFits s.client.max_message_size last) where
  -- A response cut into `nxt` frames and a last `ok` frame comes back as one `ok` response with all
  -- parts in their order; the request was sent once, and what stands behind the frames stays.
  pub send_chunked-ok :
      s.client.connection.inbox ≡ chunk_frames ps (status_frame frame_status_ok last) ++ rest
      → Succeeds
          (send_chunked ctx request s)
          (join_status_and_data frame_status_ok (glue ps ++ last))
          s
          (frame request)
          rest
  send_chunked-ok arrives =
      last-Succeeds ctx request ps (frame_status_ok ++ resp_delimiter ∷ last) _ rest s ready arrives
        request_fits parts (omega arith) (frame_round-ok (glue ps) last)

  -- An `err` frame, also one behind `nxt` frames, comes back alone: the parts before it are dropped.
  pub send_chunked-error :
      s.client.connection.inbox ≡ chunk_frames ps (status_frame frame_status_error last) ++ rest
      → Succeeds
          (send_chunked ctx request s)
          (join_status_and_data frame_status_error last)
          s
          (frame request)
          rest
  send_chunked-error arrives =
      last-Succeeds ctx request ps (frame_status_error ++ resp_delimiter ∷ last) _ rest s ready
        arrives request_fits parts (omega arith) (frame_round-error (glue ps) last)
