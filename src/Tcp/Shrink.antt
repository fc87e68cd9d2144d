-- ===== src/Tcp/Shrink.antt =====
-- Reading a frame takes bytes off what arrives, so the loops over frames end.
use fq_client_go.Common.{
  ℕ, ◌+◌, ◌≤◌, ◌≡◌, refl, ap, Option, none, some, length, length-drop, ltb, leb, leb→le, ◌==◌,
  arith, Bool-cases, inl, inr,
}
use fq_client_go.Errors.{Error, Result, ok, err}
use fq_client_go.Exec.{Exec, proceed, map_error, ◌>>◌}
use fq_client_go.Net.{Wire, Ctx, now, set_deadline, read_full, deadline_result, next_deadline}
use fq_client_go.Tcp.{
  Session, deadline, on_connection, arm, receive, read_frame_into, read_frame_size, uint32_of,
  checked_size,
}

-- What still arrives.
abbrev left : Wire → ℕ
left w = length w.inbox

abbrev pub arriving : Session → ℕ
arriving s = length s.client.connection.inbox

-- A step that never raises the measure, and lowers it by `n` if it succeeds.
pub record Takes {S A : Type 0} (measure : S → ℕ) (n : ℕ) (s : S) (out : Result A × S)
    : Type 0 where
  pub fewer : measure out.1 ≤ measure s
  pub taken : (a : A) → out.0 ≡ ok a → measure out.1 + n ≤ measure s

module _ {S : Type 0} (measure : S → ℕ) where
  Takes-then :
      {A B : Type 0} (n m : ℕ) (s : S) (out : Result A × S) (f : A → Exec S B)
      → Takes measure n s out
      → ((a : A) (t : S) → Takes measure m t (f a t))
      → Takes measure (n + m) s (proceed out f)
  Takes-then n m s (ok a, t) f h k = record {
    fewer = omega (arith, h.fewer, (k a t).fewer);
    taken = λ b q. omega (arith, (k a t).taken b q, h.taken a refl);
  }
  Takes-then n m s (err e, t) f h k = record { fewer = h.fewer; taken = λ b q. cc }

  Takes-weaken :
      {A : Type 0} (n m : ℕ) (s : S) (out : Result A × S)
      → m ≤ n
      → Takes measure n s out
      → Takes measure m s out
  Takes-weaken n m s out l h = record { fewer = h.fewer; taken = λ a q. omega (arith, h.taken a q) }

  lift-Takes : {A : Type 0} (r : Result A) (s : S) → Takes measure 0 s (r, s)
  lift-Takes r s = record { fewer = omega arith; taken = λ a h. omega arith }

read_full-Takes : (n : ℕ) (w : Wire) → Takes left n w (read_full n w)
unfolding read_full
read_full-Takes n w = elim (Bool-cases (n == 0)) [
  | inl e ↦ simp e (record { fewer = omega arith; taken = λ a h. ground arith })
  | inr e ↦ elim (Bool-cases w.closed) [
    | inl c ↦ simp (e, c) (record { fewer = omega arith; taken = λ a h. cc })
    | inr c ↦ elim (Bool-cases (leb n (length w.inbox))) [
      | inl l ↦
          simp (e, c, l)
            (record {
              fewer = omega (arith, length-drop n w.inbox);
              taken = λ a h. omega (arith, length-drop n w.inbox, leb→le n (length w.inbox) l);
            })
      | inr l ↦ simp (e, c, l) (record { fewer = omega arith; taken = λ a h. cc })
    ]
  ]
]

read_frame_size-Takes : (limit : ℕ) (w : Wire) → Takes left 4 w (read_frame_size limit w)
unfolding read_frame_size
read_frame_size-Takes limit w =
    Takes-then left 4 0 w (read_full 4 w) _ (read_full-Takes 4 w) λ header v.
      Takes-then left 0 0 v (uint32_of header, v) _ (lift-Takes left (uint32_of header) v)
        λ size u. lift-Takes left (checked_size size limit) u

read_frame_into-Takes :
    (limit buffer : ℕ) (w : Wire) → Takes left 4 w (read_frame_into limit buffer w)
unfolding read_frame_into
read_frame_into-Takes limit buffer w =
    Takes-then left 4 0 w (read_frame_size limit w) _ (read_frame_size-Takes limit w) λ size v.
      elim (Bool-cases (ltb buffer size)) [
        | inl e ↦ rw e (lift-Takes left _ v)
        | inr e ↦
            rw e
              (Takes-weaken left size 0 v (read_full size v) (omega arith) (read_full-Takes size v))
      ]

deadline_result-Takes :
    (o : Option Error) (d : ℕ) (w v : Wire)
    → v.inbox ≡ w.inbox
    → Takes left 0 w (deadline_result o d v)
unfolding deadline_result
deadline_result-Takes none d w v e = record {
  fewer = omega (arith, ap length e);
  taken = λ a h. omega (arith, ap length e);
}
deadline_result-Takes (some x) d w v e = record {
  fewer = omega (arith, ap length e);
  taken = λ a h. cc;
}

set_deadline-Takes : (d : ℕ) (w : Wire) → Takes left 0 w (set_deadline d w)
unfolding set_deadline
set_deadline-Takes d w = elim (Bool-cases w.closed) [
  | inl c ↦ simp c (lift-Takes left _ w)
  | inr c ↦ simp c (deadline_result-Takes (next_deadline w.deadline_steps).0 d w _ refl)
]

map_error-Takes :
    {A : Type 0} (n : ℕ) (f : Error → Error) (s t : Session) (r : Result A) (w : Wire)
    → arriving t ≡ left w
    → Takes left n s.client.connection (r, w)
    → Takes arriving n s (map_error f (r, t))
map_error-Takes n f s t (ok a) w e h = record {
  fewer = omega (arith, h.fewer);
  taken = λ b q. omega (arith, h.taken a refl);
}
map_error-Takes n f s t (err x) w e h = record { fewer = omega (arith, h.fewer); taken = λ b q. cc }

on_connection-Takes :
    {A : Type 0} (n : ℕ) (step : Exec Wire A) (s : Session)
    → Takes left n s.client.connection (step s.client.connection)
    → Takes arriving n s (on_connection step s)
unfolding on_connection
on_connection-Takes n step s h =
    map_error-Takes n _ s _ (step s.client.connection).0 (step s.client.connection).1 refl h

arm-Takes : (ctx : Ctx) (s : Session) → Takes arriving 0 s (arm ctx s)
unfolding arm
arm-Takes ctx s =
    let (time, env) = now s.env in
    let d = deadline time s.client.idle_timeout ctx in
    let h =
      on_connection-Takes 0 (set_deadline d) (record s { env = env })
        (set_deadline-Takes d s.client.connection) in
    record { fewer = h.fewer; taken = h.taken }

receive-Takes : (s : Session) → Takes arriving 4 s (receive s)
unfolding receive
receive-Takes s =
    on_connection-Takes 4 (read_frame_into s.client.max_message_size s.client.buffer_size) s
      (read_frame_into-Takes s.client.max_message_size s.client.buffer_size s.client.connection)

-- A round of a loop over frames takes a header off what arrives.
pub round-Takes : (ctx : Ctx) (s : Session) → Takes arriving 4 s ((do arm ctx; receive) s)
round-Takes ctx s = Takes-then arriving 0 4 s (arm ctx s) _ (arm-Takes ctx s) λ _ t. receive-Takes t
