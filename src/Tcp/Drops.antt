-- ===== src/Tcp/Drops.antt =====
-- No step gives dials back, and a reconnect that succeeds has used one up.
use fq_client_go.Common.{
  ℕ, ◌+◌, ◌≤◌, ◌≡◌, refl, ap, Option, none, some, List, [], ◌∷◌, Bytes, length, arith, ltb, ◌==◌,
  Bool-cases, inl, inr,
}
use fq_client_go.Errors.{Error, Result, ok, err}
use fq_client_go.Exec.{Exec, proceed, map_error}
use fq_client_go.Net.{Wire, Ctx, Dial, refused, connected, next_dial, dial_from, now}
use fq_client_go.Response.{Response, ResponseStatus, is_protocol_code, success, error, unknown}
use fq_client_go.Response.Readers.{HelloInfo}
use fq_client_go.Response.Protocol.{code_number, authentication_failed}
use fq_client_go.Tcp.{Session, send, check_request, arm, receive, on_connection, write_frame}
use fq_client_go.Tcp.Connect.{
  reconnect, connect, establish, dial, dialled, hello, negotiate, negotiate_status, hello_failure,
  accept_hello, hello_or_close,
}

-- The dials that are left do not grow, and `n` of them are gone behind a success.
pub record Drops {A : Type 0} (n : ℕ) (s : Session) (out : Result A × Session) : Type 0 where
  pub always : length out.1.env.dials ≤ length s.env.dials
  pub succeeded : (a : A) → out.0 ≡ ok a → length out.1.env.dials + n ≤ length s.env.dials

-- A step that leaves the dials alone.
pub same-Drops :
    {A : Type 0} (s : Session) (out : Result A × Session)
    → out.1.env.dials ≡ s.env.dials
    → Drops 0 s out
same-Drops s out e = record {
  always = omega (arith, ap length e);
  succeeded = λ a h. omega (arith, ap length e);
}

pub Drops-then :
    {A B : Type 0} (n m : ℕ) (s : Session) (out : Result A × Session) (f : A → Exec Session B)
    → Drops n s out
    → ((a : A) (t : Session) → Drops m t (f a t))
    → Drops (n + m) s (proceed out f)
Drops-then n m s (ok a, t) f h k = record {
  always = omega (arith, h.always, (k a t).always);
  succeeded = λ b e. omega (arith, h.succeeded a refl, (k a t).succeeded b e);
}
Drops-then n m s (err e, t) f h k = record { always = h.always; succeeded = λ b x. grind arith }

map_error-Drops :
    {A : Type 0} (n : ℕ) (f : Error → Error) (s : Session) (out : Result A × Session)
    → Drops n s out
    → Drops n s (map_error f out)
map_error-Drops n f s (ok a, t) h = record { always = h.always; succeeded = h.succeeded }
map_error-Drops n f s (err e, t) h = record { always = h.always; succeeded = λ b x. grind arith }

pub on_connection-Drops :
    {A : Type 0} (step : Exec Wire A) (s : Session) → Drops 0 s (on_connection step s)
unfolding on_connection
on_connection-Drops step s = map_error-Drops 0 _ s _ (same-Drops s _ refl)

pub arm-Drops : (ctx : Ctx) (s : Session) → Drops 0 s (arm ctx s)
unfolding arm now
arm-Drops ctx s =
    let h = on_connection-Drops _ (record s { env = (now s.env).1 }) in
    record { always = h.always; succeeded = h.succeeded }

pub check_request-Drops : (request : Bytes) (s : Session) → Drops 0 s (check_request request s)
unfolding check_request
check_request-Drops request s = elim (Bool-cases (ltb s.client.max_message_size (length request))) [
  | inl e ↦ rw e (same-Drops s _ refl)
  | inr e ↦ rw e (same-Drops s _ refl)
]

pub send-Drops : (ctx : Ctx) (request : Bytes) (s : Session) → Drops 0 s (send ctx request s)
unfolding send receive
send-Drops ctx request s =
    Drops-then 0 0 s (check_request request s) _ (check_request-Drops request s) λ _ t.
      Drops-then 0 0 t (arm ctx t) _ (arm-Drops ctx t) λ _ u.
        Drops-then 0 0 u (on_connection (write_frame request) u) _ (on_connection-Drops _ u)
          λ _ v. on_connection-Drops _ v

hello_failure-Drops : (o : Option Error) (s : Session) → Drops 0 s (hello_failure o s)
unfolding hello_failure
hello_failure-Drops none s = same-Drops s _ refl
hello_failure-Drops (some e) s =
    elim (Bool-cases (is_protocol_code e (code_number authentication_failed))) [
      | inl h ↦ rw h (same-Drops s _ refl)
      | inr h ↦ rw h (same-Drops s _ refl)
    ]

accept_hello-Drops : (info : HelloInfo) (s : Session) → Drops 0 s (accept_hello info s)
unfolding accept_hello
accept_hello-Drops info s = elim (Bool-cases (info.version == 1)) [
  | inl e ↦ rw e (same-Drops s _ refl)
  | inr e ↦ rw e (same-Drops s _ refl)
]

negotiate_status-Drops :
    (status : ResponseStatus) (info : Response HelloInfo) (s : Session)
    → Drops 0 s (negotiate_status status info s)
unfolding negotiate_status
negotiate_status-Drops error info s = hello_failure-Drops info.err s
negotiate_status-Drops success info s = accept_hello-Drops info.value s
negotiate_status-Drops unknown info s = accept_hello-Drops info.value s

hello-Drops : (ctx : Ctx) (s : Session) → Drops 0 s (hello ctx s)
unfolding hello negotiate
hello-Drops ctx s =
    Drops-then 0 0 s (map_error _ (send ctx _ s)) _ (map_error-Drops 0 _ s _ (send-Drops ctx _ s))
      λ resp t.
        Drops-then 0 0 t (map_error _ _) _ (map_error-Drops 0 _ t _ (same-Drops t _ refl))
          λ info u. negotiate_status-Drops info.status info u

hello_or_close-Drops :
    (s : Session) (out : Result (Unit {0}) × Session)
    → Drops 0 s out
    → Drops 0 s (hello_or_close out)
unfolding hello_or_close
hello_or_close-Drops s (ok u, t) h = record { always = h.always; succeeded = h.succeeded }
hello_or_close-Drops s (err e, t) h = record { always = h.always; succeeded = h.succeeded }

establish-Drops : (w : Wire) (s : Session) → Drops 0 s (establish w s)
unfolding establish now
establish-Drops w s =
    let h = hello_or_close-Drops _ _ (
      hello-Drops _
        (record { client = record s.client { connection = w }; env = (now s.env).1 })) in
    record { always = h.always; succeeded = h.succeeded }

dialled-Drops :
    (ds : List Dial) (s : Session) → s.env.dials ≡ ds → Drops 1 s (dialled s (dial_from ds s.env))
unfolding dialled dial_from
dialled-Drops [] s e = record { always = omega arith; succeeded = λ a x. grind arith }
dialled-Drops (refused x ∷ ds) s e = record {
  always = omega (arith, ap length e);
  succeeded = λ a x. grind arith;
}
dialled-Drops (connected w ∷ ds) s e = record {
  always = omega (arith, ap length e);
  succeeded = λ a x. omega (arith, ap length e);
}

dial-Drops : (s : Session) → Drops 1 s (dial s)
unfolding dial next_dial
dial-Drops s = dialled-Drops s.env.dials s refl

-- A reconnect that succeeds uses a dial up.
pub reconnect-Drops : (s : Session) → Drops 1 s (reconnect s)
unfolding reconnect connect
reconnect-Drops s =
    let h = Drops-then 1 0 _ (dial _) establish (dial-Drops _) (λ w t. establish-Drops w t) in
    record { always = h.always; succeeded = h.succeeded }

pub receive-Drops : (s : Session) → Drops 0 s (receive s)
unfolding receive
receive-Drops s = on_connection-Drops _ s
