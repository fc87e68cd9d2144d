-- ===== src/Tcp/Stream.antt =====
-- tcp_client.go: `Stream`, an endless sequence of frames, each handed to the caller's function.
use fq_client_go.Common.{ℕ, zero, suc, Option, none, some, Bytes, codes}
use fq_client_go.Errors.{Error, message, Result, ok, err}
use fq_client_go.Exec.{◌>>◌}
use fq_client_go.Net.{Ctx}
use fq_client_go.Tcp.{Session, check_request, arm, on_connection, write_frame, receive}
use fq_client_go.Tcp.Chunked.{rounds, or_stuck}

-- The caller's function, with the state `H` that it changes; it returns an error or nil.
abbrev pub Handler : Type 0 → Type 0 → Type 0
Handler H T = T → H → Option Error × H

-- An error of the caller's function ends the stream.
unfoldable pub after_handle {ℓ} :
    {H : Type 0} {R : Type ℓ} → Option Error × H → (Error → H → R) → (H → R) → R
after_handle (some e, h) stop next = stop e h
after_handle (none, h) stop next = next h

module _ {H : Type 0} (handle : Handler H Bytes) where
  unfoldable pub frame_step :
      {S : Type 0}
      → Result Bytes × S
      → H
      → (S → H → Option (Error × S × H))
      → Option (Error × S × H)
  unfolding after_handle
  frame_step (err e, t) h next = some (e, t, h)
  frame_step (ok frame, t) h next = after_handle (handle frame h) (λ e g. some (e, t, g)) (next t)

  -- The loop returns only with an error; `none` means that the fuel ran out.
  unfoldable pub frames : ℕ → Ctx → Session → H → Option (Error × Session × H)
  unfolding frame_step
  frames zero ctx s h = none
  frames (suc fuel) ctx s h = frame_step ((do arm ctx; receive) s) h (λ t g. frames fuel ctx t g)

  unfoldable pub begun : Ctx → Result (Unit {0}) × Session → H → Error × Session × H
  unfolding frames
  begun ctx (err e, t) h = (e, t, h)
  begun ctx (ok _, t) h = or_stuck (frames (rounds t) ctx t h) (message (codes "out of fuel"), t, h)

  -- `Stream` returns an error always.
  unfoldable pub stream : Ctx → Bytes → Session → H → Error × Session × H
  unfolding begun
  stream ctx request s h =
      begun ctx ((do check_request request; arm ctx; on_connection (write_frame request)) s) h
