-- ===== src/Client/Ends.antt =====
-- client.go: the loops of `New` and of the streams end.
use fq_client_go.Common.{
  ℕ, zero, suc, ◌≤◌, ◌<◌, Bool, true, false, Option, none, some, List, [], ◌∷◌, Bytes, codes,
  length, ◌≡◌, refl, ap, arith,
}
use fq_client_go.Errors.{Error, message, error_is, conn_closed, Result, ok, err}
use fq_client_go.Exec.{◌>>◌}
use fq_client_go.Net.{Ctx}
use fq_client_go.Tcp.{Session, check_request, arm, receive}
use fq_client_go.Tcp.Connect.{reconnect}
use fq_client_go.Tcp.Stream.{Handler, stream, frames, frame_step, begun, after_handle}
use fq_client_go.Tcp.Retry.{ctx_error, max_reconnect_attempts}
use fq_client_go.Client.Streams.{
  Ended, Attempt, cancelled, gave_up, back, reconnect_attempts, attempts_over, on_ctx, on_reconnect,
  after_attempts, closed_or_not, after_stream, stream_loop,
}
use fq_client_go.Tcp.Drops.{
  Drops, Drops-then, on_connection-Drops, arm-Drops, receive-Drops, check_request-Drops,
  reconnect-Drops,
}
use fq_client_go.Tcp.Chunked.{or_stuck, rounds}
use fq_client_go.Net.{Env, next_ctx_error, ctx_error_from}

abbrev dials : Session → ℕ
dials s = length s.env.dials

-- If the connection is back, a dial was used up.
record Back (s : Session) (out : Attempt × Session) : Type 0 where
  used : out.0 ≡ back → length out.1.env.dials < length s.env.dials

on_ctx-Back :
    (s : Session) (out : Option Error × Session) (go_on : Session → Attempt × Session)
    → out.1.env.dials ≡ s.env.dials
    → ((t : Session) → Back t (go_on t))
    → Back s (on_ctx out go_on)
unfolding on_ctx
on_ctx-Back s (some e, t) go_on same k = record { used = λ h. grind arith }
on_ctx-Back s (none, t) go_on same k = record {
  used = λ h. omega (arith, ap length same, (k t).used h);
}

on_reconnect-Back :
    (s : Session) (out : Result (Unit {0}) × Session) (again : Error → Session → Attempt × Session)
    → Drops 1 s out
    → ((e : Error) (t : Session) → Back t (again e t))
    → Back s (on_reconnect out again)
unfolding on_reconnect
on_reconnect-Back s (ok a, t) again d k = record { used = λ h. omega (arith, d.succeeded a refl) }
on_reconnect-Back s (err e, t) again d k = record {
  used = λ h. omega (arith, d.always, (k e t).used h);
}

ctx_error-dials :
    (os : List (Option Error)) (env : Env) → (ctx_error_from os env).1.dials ≡ env.dials
unfolding ctx_error_from
ctx_error-dials [] env = refl
ctx_error-dials (o ∷ os) env = refl

retried-Back : (left : ℕ) (e : Error) (s : Session) → Back s (reconnect_attempts left (some e) s)
unfolding reconnect_attempts attempts_over ctx_error next_ctx_error
retried-Back zero e s = record { used = λ h. grind arith }
retried-Back (suc left) e s =
    on_ctx-Back s (ctx_error s) _ (ctx_error-dials s.env.ctx_errors s.env)
      λ t. on_reconnect-Back t (reconnect t) _ (reconnect-Drops t) (λ x u. retried-Back left x u)

reconnect_attempts-Back : (s : Session) → Back s (reconnect_attempts max_reconnect_attempts none s)
unfolding reconnect_attempts ctx_error next_ctx_error
reconnect_attempts-Back s =
    on_ctx-Back s (ctx_error s) _ (ctx_error-dials s.env.ctx_errors s.env)
      λ t. on_reconnect-Back t (reconnect t) _ (reconnect-Drops t) (λ x u. retried-Back 15 x u)

-- An end of a stream whose dials are no more than before.
record Keeps {H : Type 0} (s : Session) (o : Ended H) : Type 0 where
  kept : (r : Error × Session × H) → o ≡ some r → dials r.1 ≤ dials s

module _ {H : Type 0} (handle : Handler H Bytes) where
  handled-Keeps :
      (s t : Session) (o : Option Error × H) (next : H → Ended H)
      → dials t ≤ dials s
      → ((g : H) → Keeps s (next g))
      → Keeps s (after_handle o (λ e g. some (e, t, g)) next)
  unfolding after_handle
  handled-Keeps s t (some e, g) next b k = record {
    kept = λ r x. omega (arith, b, ap (or_dials t) x);
  }
    where
      or_dials : Session → Ended H → ℕ
      or_dials t none = dials t
      or_dials t (some r) = dials r.1
  handled-Keeps s t (none, g) next b k = k g

  frame_step-Keeps :
      (s : Session) (out : Result Bytes × Session) (h : H) (next : Session → H → Ended H)
      → dials out.1 ≤ dials s
      → ((g : H) → Keeps s (next out.1 g))
      → Keeps s (frame_step handle out h next)
  unfolding frame_step
  frame_step-Keeps s (err e, t) h next b k = record {
    kept = λ r x. omega (arith, b, ap (or_dials t) x);
  }
    where
      or_dials : Session → Ended H → ℕ
      or_dials t none = dials t
      or_dials t (some r) = dials r.1
  frame_step-Keeps s (ok frame, t) h next b k = handled-Keeps s t (handle frame h) (next t) b k

  frames-Keeps : (fuel : ℕ) (ctx : Ctx) (s : Session) (h : H) → Keeps s (frames handle fuel ctx s h)
  unfolding frames
  frames-Keeps zero ctx s h = record { kept = λ r x. grind arith }
  frames-Keeps (suc fuel) ctx s h =
      frame_step-Keeps s ((do arm ctx; receive) s) h _ (received ctx s).always λ g. record {
        kept = λ r x. omega (
          arith,
          (received ctx s).always,
          (frames-Keeps fuel ctx ((do arm ctx; receive) s).1 g).kept r x,
        );
      }
    where
      received : (ctx : Ctx) (s : Session) → Drops 0 s ((do arm ctx; receive) s)
      received ctx s = Drops-then 0 0 s (arm ctx s) _ (arm-Drops ctx s) (λ x t. receive-Drops t)

  or_stuck-Keeps :
      (s : Session) (o : Ended H) (d : Error × Session × H)
      → Keeps s o
      → dials d.1 ≤ dials s
      → dials (or_stuck o d).1 ≤ dials s
  unfolding or_stuck
  or_stuck-Keeps s none d k b = b
  or_stuck-Keeps s (some r) d k b = k.kept r refl

  begun-Keeps :
      (ctx : Ctx) (s : Session) (out : Result (Unit {0}) × Session) (h : H)
      → dials out.1 ≤ dials s
      → dials (begun handle ctx out h).1 ≤ dials s
  unfolding begun
  begun-Keeps ctx s (err e, t) h b = b
  begun-Keeps ctx s (ok a, t) h b = omega (
    arith,
    b,
    or_stuck-Keeps t (frames handle (rounds t) ctx t h) (message (codes "out of fuel"), t, h)
        (frames-Keeps (rounds t) ctx t h) (omega arith),
  )

  -- A stream dials nowhere.
  stream-Keeps :
      (ctx : Ctx) (request : Bytes) (s : Session) (h : H)
      → dials (stream handle ctx request s h).1 ≤ dials s
  unfolding stream
  stream-Keeps ctx request s h =
      begun-Keeps ctx s _ h
        (Drops-then 0 0 s (check_request request s) _ (check_request-Drops request s) λ _ t.
          Drops-then 0 0 t (arm ctx t) _ (arm-Drops ctx t) λ _ u. on_connection-Drops _ u).always

module _ {H : Type 0} where
  -- A loop that ended.
  abbrev Ends : Ended H → Type 0
  Ends o = (r : Error × Session × H) × (o ≡ some r)

  after_attempts-Ends :
      (s : Session) (out : Attempt × Session) (h : H) (again : Session → H → Ended H)
      → Back s out
      → ((t : Session) → dials t < dials s → Ends (again t h))
      → Ends (after_attempts out h again)
  unfolding after_attempts
  after_attempts-Ends s (cancelled e, t) h again b k = ((e, t, h), refl)
  after_attempts-Ends s (gave_up e, t) h again b k = (_, refl)
  after_attempts-Ends s (back, t) h again b k = k t (b.used refl)

  closed_or_not-Ends :
      (closed : Bool) (e : Error) (s : Session) (h : H) (again : Session → H → Ended H)
      → ((t : Session) → dials t < dials s → Ends (again t h))
      → Ends (closed_or_not closed e s h again)
  unfolding closed_or_not
  closed_or_not-Ends false e s h again k = ((e, s, h), refl)
  closed_or_not-Ends true e s h again k =
      after_attempts-Ends s _ h again (reconnect_attempts-Back s) k

  after_stream-Ends :
      (e : Error) (s : Session) (out : Option Error × Session) (h : H)
      (again : Session → H → Ended H)
      → dials out.1 ≤ dials s
      → ((t : Session) → dials t < dials s → Ends (again t h))
      → Ends (after_stream e out h again)
  unfolding after_stream
  after_stream-Ends e s (some c, t) h again b k = ((c, t, h), refl)
  after_stream-Ends e s (none, t) h again b k =
      closed_or_not-Ends (error_is e conn_closed) e t h again λ u l. k u (omega (arith, b))

  -- The loop of a stream ends: with more fuel than dials can still be made, it returns an error,
  -- whatever arrives and whatever the caller's function does.
  pub stream_loop_total :
      (fuel : ℕ) (handle : Handler H Bytes) (ctx : Ctx) (command : Bytes) (s : Session) (h : H)
      → length s.env.dials < fuel
      → (r : Error × Session × H) × (stream_loop fuel handle ctx command s h ≡ some r)
  unfolding stream_loop ctx_error next_ctx_error
  stream_loop_total zero handle ctx command s h l = absurd (omega arith)
  stream_loop_total (suc fuel) handle ctx command s h l =
      let out = stream handle ctx command s h in
      after_stream-Ends out.0 s (ctx_error out.1) out.2 _
        (omega (
          arith,
          stream-Keeps handle ctx command s h,
          ap length (ctx_error-dials out.1.env.ctx_errors out.1.env),
        ))
        λ u m. stream_loop_total fuel handle ctx command u out.2 (omega arith)
