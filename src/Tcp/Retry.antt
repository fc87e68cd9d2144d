-- ===== src/Tcp/Retry.antt =====
-- client.go and inspect.go: a request that reconnects when the server closed the connection.
use fq_client_go.Common.{
  ℕ, zero, suc, ◌-◌, Bool, true, false, Option, none, some, ◌++◌, Bytes, codes,
}
use fq_client_go.Errors.{Error, wrap, error_is, conn_closed, Result, ok, err}
use fq_client_go.Decimal.{format_uint}
use fq_client_go.Exec.{Exec}
use fq_client_go.Net.{Ctx, next_ctx_error}
use fq_client_go.Tcp.{Session, send}
use fq_client_go.Tcp.Connect.{reconnect}
use fq_client_go.Tcp.Chunked.{send_chunked}

abbrev pub max_reconnect_attempts : ℕ
max_reconnect_attempts = 16

-- `ctx.Err()`
unfoldable pub ctx_error : Session → Option Error × Session
ctx_error s = let (o, env) = next_ctx_error s.env in (o, record s { env = env })

abbrev pub Outcome : Type 0
Outcome = Result Bytes × Session

-- `if err := ctx.Err(); err != nil { return nil, err }`
unfoldable pub after_ctx : Option Error × Session → (Session → Outcome) → Outcome
after_ctx (some e, t) go_on = (err e, t)
after_ctx (none, t) go_on = go_on t

-- A failed reconnect is remembered in `lastErr`, and the loop continues.
unfoldable pub after_reconnect :
    ℕ → Result (Unit {0}) × Session → (Error → Session → Outcome) → (Session → Outcome) → Outcome
after_reconnect attempt (err e, u) again go_on =
    again (wrap (codes "reconnect attempt " ++ format_uint attempt) e) u
after_reconnect attempt (ok _, u) again go_on = go_on u

-- Only a closed connection is tried again.
unfoldable pub retry_if : Bool → Error → Session → (Error → Session → Outcome) → Outcome
retry_if true e v again = again e v
retry_if false e v again = (err e, v)

unfoldable pub after_send : Outcome → (Error → Session → Outcome) → Outcome
unfolding retry_if
after_send (ok resp, v) again = (ok resp, v)
after_send (err e, v) again = retry_if (error_is e conn_closed) e v again

-- `left` rounds of the loop are left, and `last` is `lastErr`. A round asks the context, reconnects
-- and sends again. The two copies of the loop differ in how they send.
module _ (resend : Exec Session Bytes) where
  unfoldable pub attempts : ℕ → Error → Exec Session Bytes
  unfolding after_ctx after_reconnect after_send
  attempts zero last s = (err (wrap (codes "reconnect attempts exceeded") last), s)
  attempts (suc left) last s = after_ctx (ctx_error s) λ t.
      after_reconnect (max_reconnect_attempts - left) (reconnect t) (λ e u. attempts left e u)
        λ u. after_send (resend u) (λ e v. attempts left e v)

  unfoldable pub with_reconnect : Exec Session Bytes
  unfolding after_send
  with_reconnect s = after_send (resend s) (λ e t. attempts max_reconnect_attempts e t)

unfoldable pub send_with_reconnect : Ctx → Bytes → Exec Session Bytes
send_with_reconnect ctx request = with_reconnect (send ctx request)

unfoldable pub send_chunked_with_reconnect : Ctx → Bytes → Exec Session Bytes
send_chunked_with_reconnect ctx request = with_reconnect (send_chunked ctx request)
