-- ===== src/Net.antt =====
-- The network as the client meets it: one connection (`net.Conn`), dialling, the clock and the
-- caller's context. What the peer and the system do is a script that the theorems leave open.
use fq_client_go.Common.{
  ℕ, Bool, true, Option, none, some, List, [], ◌∷◌, Bytes, codes, length, take, drop, leb, ◌==◌,
  if◌then◌else◌,
}
use fq_client_go.Errors.{
  Error, sentinel, net_error, eof, unexpected_eof, net_closed, Result, ok, err,
}
use fq_client_go.Exec.{Exec}

-- What one call of `Write` answers: how many bytes it took at most, and an error.
pub record WriteStep : Type 0 where
  pub taken : ℕ
  pub failure : Option Error

pub record Wire : Type 0 where
  -- the bytes that will still arrive, and what a read returns behind them
  pub inbox : Bytes
  pub fault : Error
  -- the bytes that the peer was sent, and the answers of the next calls of `Write`: at the end of
  -- the script all bytes are taken
  pub sent : Bytes
  pub write_steps : List WriteStep
  -- the answers of the next calls of `SetDeadline`
  pub deadline_steps : List (Option Error)
  pub deadline : ℕ
  pub closed : Bool

-- `io.ReadFull` turns an end of file behind some bytes into `io.ErrUnexpectedEOF`.
unfoldable pub short_read : Bytes → Error → Error
short_read [] e = e
short_read (c ∷ got) (sentinel eof) = sentinel unexpected_eof
short_read (c ∷ got) e = e

-- `io.ReadFull(conn, buf)` for a buffer of `n` bytes.
unfoldable pub read_full : ℕ → Exec Wire Bytes
unfolding short_read
read_full n w =
    if n == 0
    then (ok [], w)
    else if w.closed
    then (err (sentinel net_closed), w)
    else if leb n (length w.inbox)
    then (ok (take n w.inbox), record w { inbox = drop n w.inbox })
    else (err (short_read w.inbox w.fault), record w { inbox = [] })

unfoldable pub next_deadline : List (Option Error) → Option Error × List (Option Error)
next_deadline [] = (none, [])
next_deadline (o ∷ os) = (o, os)

unfoldable pub deadline_result : Option Error → ℕ → Wire → Result (Unit {0}) × Wire
deadline_result none d w = (ok tt, record w { deadline = d })
deadline_result (some e) d w = (err e, w)

-- `conn.SetDeadline(d)`
unfoldable pub set_deadline : ℕ → Exec Wire (Unit {0})
unfolding next_deadline deadline_result
set_deadline d w =
    if w.closed
    then (err (sentinel net_closed), w)
    else (let (answer, rest) = next_deadline w.deadline_steps in
        deadline_result answer d (record w { deadline_steps = rest }))

-- `conn.Close()`
unfoldable pub close_wire : Wire → Wire
close_wire w = record w { closed = true }

-- What a call of `net.Dial` or `tls.Dial` gives.
pub data Dial : Type 0 where
  refused : Error → Dial
  connected : Wire → Dial

pub record Env : Type 0 where
  -- the outcomes of the next dials; behind them all are refused
  pub dials : List Dial
  -- what the next calls of `ctx.Err()` return; behind them nil
  pub ctx_errors : List (Option Error)
  -- what the next calls of `time.Now()` return; behind them the last time again
  pub clock : List ℕ

-- The context that a caller passes, by its deadline.
pub record Ctx : Type 0 where
  pub deadline : Option ℕ

abbrev pub no_more_dials : Error
no_more_dials = net_error (codes "connection refused")

unfoldable pub dial_from : List Dial → Env → Dial × Env
dial_from [] env = (refused no_more_dials, env)
dial_from (d ∷ ds) env = (d, record env { dials = ds })

unfoldable pub next_dial : Env → Dial × Env
unfolding dial_from
next_dial env = dial_from env.dials env

unfoldable pub ctx_error_from : List (Option Error) → Env → Option Error × Env
ctx_error_from [] env = (none, env)
ctx_error_from (o ∷ os) env = (o, record env { ctx_errors = os })

unfoldable pub next_ctx_error : Env → Option Error × Env
unfolding ctx_error_from
next_ctx_error env = ctx_error_from env.ctx_errors env

tick : List ℕ → ℕ × List ℕ
tick [] = (0, [])
tick (t ∷ []) = (t, t ∷ [])
tick (t ∷ u ∷ ts) = (t, u ∷ ts)

unfoldable pub now : Env → ℕ × Env
unfolding tick
now env = let (t, rest) = tick env.clock in (t, record env { clock = rest })
