-- ===== src/Tcp/Frames.antt =====
-- Writing and reading frames on one connection.
pub mod Reads
pub mod Sends
use fq_client_go.Common.{
  ℕ, zero, suc, ◌-◌, ◌%◌, ◌^◌, ◌≤◌, ◌<◌, ◌≡◌, refl, ap, sym, ◌∙◌, subst, true, false, Option, none,
  some, List, [], ◌∷◌, ◌++◌, append_assoc, append-nil, Bytes, length, length-append, take, drop,
  take-append, drop-append, take-append-drop, All, ltb, leb, ◌==◌, min, arith, le→leb, Bool-cases,
  inl, inr,
}
use fq_client_go.Errors.{Error, sentinel, net_closed, short_write, Result, ok, err}
use fq_client_go.Exec.{proceed, proceed-ok}
use fq_client_go.Net.{Wire, WriteStep, read_full}
use fq_client_go.Tcp.{
  put_uint32, uint32_of, after_write, write_rounds, write_all, write_frame, read_frame_size,
  read_frame_into, checked_size, too_large, frame_header_size,
}

pub uint32_of-put_uint32 : (n : ℕ) → n < 2 ^ 32 → uint32_of (put_uint32 n) ≡ ok n
unfolding uint32_of put_uint32
uint32_of-put_uint32 n h = ap ok (omega arith)

-- A payload behind its length.
abbrev pub frame : Bytes → Bytes
frame p = put_uint32 (length p) ++ p

-- What a write may change: the bytes sent, and the script.
pub record Wrote (w v : Wire) (more : Bytes) : Type 0 where
  pub sent : v.sent ≡ w.sent ++ more
  pub inbox : v.inbox ≡ w.inbox
  pub fault : v.fault ≡ w.fault
  pub closed : v.closed ≡ w.closed
  pub deadline_steps : v.deadline_steps ≡ w.deadline_steps

-- A call of `Write` that takes some bytes and does not fail.
abbrev pub IsSteady : WriteStep → Type 0
IsSteady step = (step.failure ≡ none) × (0 < step.taken)

pub Wrote-trans :
    (u v w : Wire) (more most : Bytes) → Wrote u v more → Wrote v w most → Wrote u w (more ++ most)
Wrote-trans u v w more most g h = record {
  sent = h.sent ∙ ap (λ (s : Bytes). s ++ most) g.sent ∙ append_assoc u.sent more most;
  inbox = h.inbox ∙ g.inbox;
  fault = h.fault ∙ g.fault;
  closed = h.closed ∙ g.closed;
  deadline_steps = h.deadline_steps ∙ g.deadline_steps;
}

pub Wrote-self : (w : Wire) (steps : List WriteStep) → Wrote w (record w { write_steps = steps }) []
Wrote-self w steps = record {
  sent = sym (append-nil w.sent);
  inbox = refl;
  fault = refl;
  closed = refl;
  deadline_steps = refl;
}

-- A write that succeeds sent all the data, and one that fails a front part of it.
pub data Written (w : Wire) (body : Bytes) (out : Result (Unit {0}) × Wire) : Type 0 where
  all_sent : out.0 ≡ ok tt → Wrote w out.1 body → Written w body out
  part_sent :
      (e : Error) (front back : Bytes)
      → out.0 ≡ err e
      → body ≡ front ++ back
      → Wrote w out.1 front
      → Written w body out

Written-later :
    (w v : Wire) (front back : Bytes) (out : Result (Unit {0}) × Wire)
    → Wrote w v front
    → Written v back out
    → Written w (front ++ back) out
Written-later w v front back out g (all_sent e h) =
    all_sent e (Wrote-trans w v out.1 front back g h)
Written-later w v front back out g (part_sent e most rest q r h) =
    part_sent e (front ++ most) rest q (ap (◌++◌ front) r ∙ sym (append_assoc front most rest))
      (Wrote-trans w v out.1 front most g h)

after_write-Written :
    (failure : Option Error) (taken : ℕ) (w v : Wire) (front back : Bytes)
    (more : Result (Unit {0}) × Wire)
    → Wrote w v front
    → Written v back more
    → Written w (front ++ back) (after_write failure taken v more)
unfolding after_write
after_write-Written (some e) taken w v front back more g h = part_sent e front back refl refl g
after_write-Written none taken w v front back more g h = elim (Bool-cases (taken == 0)) [
  | inl e ↦ rw e (part_sent (sentinel short_write) front back refl refl g)
  | inr e ↦ rw e (Written-later w v front back more g h)
]

pub write_rounds-Written :
    (steps : List WriteStep) (body : Bytes) (w : Wire) → Written w body (write_rounds steps body w)
unfolding write_rounds
write_rounds-Written steps [] w = all_sent refl (Wrote-self w steps)
write_rounds-Written [] (c ∷ rest) w =
    all_sent refl
      (record { sent = refl; inbox = refl; fault = refl; closed = refl; deadline_steps = refl })
write_rounds-Written (step ∷ steps) (c ∷ rest) w =
    let taken = min step.taken (suc (length rest)) in
    let v = record w { sent = w.sent ++ take taken (c ∷ rest); write_steps = steps } in
    subst
      (λ s.
        Written w s
          (after_write step.failure taken v (write_rounds steps (drop taken (c ∷ rest)) v)))
      (take-append-drop taken (c ∷ rest))
      (after_write-Written step.failure taken w v (take taken (c ∷ rest)) (drop taken (c ∷ rest)) _
        (record { sent = refl; inbox = refl; fault = refl; closed = refl; deadline_steps = refl })
        (write_rounds-Written steps (drop taken (c ∷ rest)) v))

-- Whatever the calls of `Write` answer, `writeAll` reports success only if every byte was sent in
-- order, and on an error a front part of them; nothing else of the connection changes.
pub write_all-Written : (body : Bytes) (w : Wire) → Written w body (write_all body w)
unfolding write_all
write_all-Written [] w = all_sent refl (Wrote-self w w.write_steps)
write_all-Written (c ∷ rest) w = elim (Bool-cases w.closed) [
  | inl e ↦
      simp e (part_sent (sentinel net_closed) [] (c ∷ rest) refl refl (Wrote-self w w.write_steps))
  | inr e ↦ simp e (write_rounds-Written w.write_steps (c ∷ rest) w)
]

-- Calls of `Write` that take a byte at least and do not fail get all the data through.
pub write_rounds-steady :
    (steps : List WriteStep) (body : Bytes) (w : Wire)
    → All IsSteady steps
    → (write_rounds steps body w).0 ≡ ok tt
unfolding write_rounds
write_rounds-steady steps [] w h = refl
write_rounds-steady [] (c ∷ rest) w h = refl
write_rounds-steady (step ∷ steps) (c ∷ rest) w (calm, h) =
    let some_taken : (min step.taken (suc (length rest)) == 0) ≡ false = ground (arith, calm.1) in
    rw (calm.0, some_taken) (write_rounds-steady steps _ _ h)

-- A connection that is open and whose peer takes what is written.
pub record IsOpen (w : Wire) : Type 0 where
  pub open_wire : w.closed ≡ false
  pub calm : All IsSteady w.write_steps
