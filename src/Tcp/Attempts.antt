-- ===== src/Tcp/Attempts.antt =====
-- How often a request reconnects.
use fq_client_go.Common.{
  ℕ, zero, suc, ◌+◌, ◌≤◌, ◌≡◌, refl, ap, Option, none, some, List, [], ◌∷◌, Bytes, length, arith,
  ltb, ◌==◌, Bool-cases, inl, inr,
}
use fq_client_go.Errors.{Error, Result, ok, err, error_is, conn_closed}
use fq_client_go.Exec.{Exec, proceed, map_error}
use fq_client_go.Net.{
  Wire, Ctx, Dial, refused, connected, next_dial, dial_from, next_ctx_error, ctx_error_from, now,
}
use fq_client_go.Response.{Response, ResponseStatus, is_protocol_code, success, error, unknown}
use fq_client_go.Response.Readers.{HelloInfo}
use fq_client_go.Response.Protocol.{code_number, authentication_failed}
use fq_client_go.Tcp.{Session, send, check_request, arm, receive, on_connection, write_frame}
use fq_client_go.Tcp.Connect.{
  reconnect, connect, establish, dial, dialled, hello, negotiate, negotiate_status, hello_failure,
  accept_hello, hello_or_close,
}
use fq_client_go.Tcp.Retry.{
  Outcome, after_ctx, after_reconnect, after_send, attempts, with_reconnect, send_with_reconnect,
  ctx_error,
}

abbrev dials : Session → ℕ
dials s = length s.env.dials

-- A step that dials `n` times at most.
pub record Dials {A : Type 0} (n : ℕ) (s : Session) (out : Result A × Session) : Type 0 where
  pub bound : length s.env.dials ≤ length out.1.env.dials + n

Dials-then :
    {A B : Type 0} (n m : ℕ) (s : Session) (out : Result A × Session) (f : A → Exec Session B)
    → Dials n s out
    → ((a : A) (t : Session) → Dials m t (f a t))
    → Dials (n + m) s (proceed out f)
Dials-then n m s (ok a, t) f h k = record { bound = omega (arith, h.bound, (k a t).bound) }
Dials-then n m s (err e, t) f h k = record { bound = omega (arith, h.bound) }

map_error-Dials :
    {A : Type 0} (n : ℕ) (f : Error → Error) (s : Session) (out : Result A × Session)
    → Dials n s out
    → Dials n s (map_error f out)
map_error-Dials n f s (ok a, t) h = record { bound = h.bound }
map_error-Dials n f s (err e, t) h = record { bound = h.bound }

on_connection-Dials :
    {A : Type 0} (step : Exec Wire A) (s : Session) → Dials 0 s (on_connection step s)
unfolding on_connection
on_connection-Dials step s = map_error-Dials 0 _ s _ (record { bound = omega arith })

arm-Dials : (ctx : Ctx) (s : Session) → Dials 0 s (arm ctx s)
unfolding arm now
arm-Dials ctx s = record {
  bound = (on_connection-Dials _ (record s { env = (now s.env).1 })).bound;
}

check_request-Dials : (request : Bytes) (s : Session) → Dials 0 s (check_request request s)
unfolding check_request
check_request-Dials request s = elim (Bool-cases (ltb s.client.max_message_size (length request))) [
  | inl e ↦ rw e (record { bound = omega arith })
  | inr e ↦ rw e (record { bound = omega arith })
]

-- Sending and receiving dial nowhere.
pub send-Dials : (ctx : Ctx) (request : Bytes) (s : Session) → Dials 0 s (send ctx request s)
unfolding send receive
send-Dials ctx request s =
    Dials-then 0 0 s (check_request request s) _ (check_request-Dials request s) λ _ t.
      Dials-then 0 0 t (arm ctx t) _ (arm-Dials ctx t) λ _ u.
        Dials-then 0 0 u (on_connection (write_frame request) u) _ (on_connection-Dials _ u)
          λ _ v. on_connection-Dials _ v

hello_failure-Dials : (o : Option Error) (s : Session) → Dials 0 s (hello_failure o s)
unfolding hello_failure
hello_failure-Dials none s = record { bound = omega arith }
hello_failure-Dials (some e) s =
    elim (Bool-cases (is_protocol_code e (code_number authentication_failed))) [
      | inl h ↦ rw h (record { bound = omega arith })
      | inr h ↦ rw h (record { bound = omega arith })
    ]

accept_hello-Dials : (info : HelloInfo) (s : Session) → Dials 0 s (accept_hello info s)
unfolding accept_hello
accept_hello-Dials info s = elim (Bool-cases (info.version == 1)) [
  | inl e ↦ rw e (record { bound = omega arith })
  | inr e ↦ rw e (record { bound = omega arith })
]

negotiate_status-Dials :
    (status : ResponseStatus) (info : Response HelloInfo) (s : Session)
    → Dials 0 s (negotiate_status status info s)
unfolding negotiate_status
negotiate_status-Dials error info s = hello_failure-Dials info.err s
negotiate_status-Dials success info s = accept_hello-Dials info.value s
negotiate_status-Dials unknown info s = accept_hello-Dials info.value s

negotiate-Dials : (info : Response HelloInfo) (s : Session) → Dials 0 s (negotiate info s)
unfolding negotiate
negotiate-Dials info s = negotiate_status-Dials info.status info s

hello-Dials : (ctx : Ctx) (s : Session) → Dials 0 s (hello ctx s)
unfolding hello
hello-Dials ctx s =
    Dials-then 0 0 s (map_error _ (send ctx _ s)) _ (map_error-Dials 0 _ s _ (send-Dials ctx _ s))
      λ resp t.
        Dials-then 0 0 t (map_error _ _) _
          (map_error-Dials 0 _ t _ (record { bound = omega arith }))
          λ info u. negotiate-Dials info u

hello_or_close-Dials :
    (s : Session) (out : Result (Unit {0}) × Session)
    → Dials 0 s out
    → Dials 0 s (hello_or_close out)
unfolding hello_or_close
hello_or_close-Dials s (ok u, t) h = record { bound = h.bound }
hello_or_close-Dials s (err e, t) h = record { bound = h.bound }

establish-Dials : (w : Wire) (s : Session) → Dials 0 s (establish w s)
unfolding establish now
establish-Dials w s = record {
  bound =
      (hello_or_close-Dials _ _ (
        hello-Dials _
          (record { client = record s.client { connection = w }; env = (now s.env).1 }))).bound;
}

dialled-Dials :
    (ds : List Dial) (s : Session) → s.env.dials ≡ ds → Dials 1 s (dialled s (dial_from ds s.env))
unfolding dialled dial_from
dialled-Dials [] s e = record { bound = omega arith }
dialled-Dials (refused x ∷ ds) s e = record { bound = omega (arith, ap length e) }
dialled-Dials (connected w ∷ ds) s e = record { bound = omega (arith, ap length e) }

dial-Dials : (s : Session) → Dials 1 s (dial s)
unfolding dial next_dial
dial-Dials s = dialled-Dials s.env.dials s refl

-- Reconnecting dials once.
pub reconnect-Dials : (s : Session) → Dials 1 s (reconnect s)
unfolding reconnect connect
reconnect-Dials s = record {
  bound = (Dials-then 1 0 _ (dial _) establish (dial-Dials _) (λ w t. establish-Dials w t)).bound;
}

ctx_error-Dials :
    (os : List (Option Error)) (s : Session) → (ctx_error_from os s.env).1.dials ≡ s.env.dials
unfolding ctx_error_from
ctx_error-Dials [] s = refl
ctx_error-Dials (o ∷ os) s = refl

module _ (resend : Exec Session Bytes) (still : (s : Session) → Dials 0 s (resend s)) where
  after_send-Dials :
      (n : ℕ) (s : Session) (out : Outcome) (again : Error → Session → Outcome)
      → Dials 0 s out
      → ((e : Error) (t : Session) → Dials n t (again e t))
      → Dials n s (after_send out again)
  unfolding after_send
  after_send-Dials n s (ok resp, v) again h k = record { bound = omega (arith, h.bound) }
  after_send-Dials n s (err e, v) again h k = elim (Bool-cases (error_is e conn_closed)) [
    | inl c ↦ rw c (record { bound = omega (arith, h.bound, (k e v).bound) })
    | inr c ↦ rw c (record { bound = omega (arith, h.bound) })
  ]

  after_reconnect-Dials :
      (n attempt : ℕ) (s : Session) (out : Result (Unit {0}) × Session)
      (again : Error → Session → Outcome) (go_on : Session → Outcome)
      → Dials 1 s out
      → ((e : Error) (t : Session) → Dials n t (again e t))
      → ((t : Session) → Dials n t (go_on t))
      → Dials (suc n) s (after_reconnect attempt out again go_on)
  unfolding after_reconnect
  after_reconnect-Dials n attempt s (err e, u) again go_on h k l = record {
    bound = omega (arith, h.bound, (k _ u).bound);
  }
  after_reconnect-Dials n attempt s (ok _, u) again go_on h k l = record {
    bound = omega (arith, h.bound, (l u).bound);
  }

  after_ctx-Dials :
      (n : ℕ) (s : Session) (out : Option Error × Session) (go_on : Session → Outcome)
      → out.1.env.dials ≡ s.env.dials
      → ((t : Session) → Dials n t (go_on t))
      → Dials n s (after_ctx out go_on)
  unfolding after_ctx
  after_ctx-Dials n s (some e, t) go_on h k = record { bound = omega (arith, ap length h) }
  after_ctx-Dials n s (none, t) go_on h k = record {
    bound = omega (arith, ap length h, (k t).bound);
  }

  -- The loop dials at most as often as rounds are left.
  pub attempts-Dials :
      (left : ℕ) (last : Error) (s : Session) → Dials left s (attempts resend left last s)
  unfolding attempts ctx_error next_ctx_error
  attempts-Dials zero last s = record { bound = omega arith }
  attempts-Dials (suc left) last s =
      after_ctx-Dials (suc left) s _ _ (ctx_error-Dials s.env.ctx_errors s) λ t.
        after_reconnect-Dials left _ t (reconnect t) _ _ (reconnect-Dials t)
          (λ e u. attempts-Dials left e u)
          λ u. after_send-Dials left u (resend u) _ (still u) (λ e v. attempts-Dials left e v)

  pub with_reconnect-Dials : (s : Session) → Dials 16 s (with_reconnect resend s)
  unfolding with_reconnect
  with_reconnect-Dials s =
      after_send-Dials 16 s (resend s) _ (still s) (λ e t. attempts-Dials 16 e t)

-- However the network behaves, one request dials at most sixteen times.
pub send_with_reconnect-Dials :
    (ctx : Ctx) (request : Bytes) (s : Session) → Dials 16 s (send_with_reconnect ctx request s)
unfolding send_with_reconnect
send_with_reconnect-Dials ctx request s =
    with_reconnect-Dials (send ctx request) (send-Dials ctx request) s
