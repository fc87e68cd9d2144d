-- ===== src/Tcp/Pooled/Reads.antt =====
-- tcp_client.go: a read into a pooled buffer is the read into a fresh one.
use fq_client_go.Common.{
  ℕ, ◌≤◌, ◌≡◌, refl, ap, sym, ◌∙◌, subst, arith, Bool-cases, inl, inr, Bytes, codes, length,
  length-take, take, ltb, if◌then◌else◌,
}
use fq_client_go.Errors.{panic, Result, ok, err}
use fq_client_go.Exec.{Exec, proceed, map_error, raise}
use fq_client_go.Net.{Wire, Ctx, read_full, now}
use fq_client_go.Buffers.{copy}
use fq_client_go.Buffers.Laws.{length-copy, take-copy}
use fq_client_go.Tcp.{
  Session, check_request, arm, on_connection, read_frame_size, read_frame_into,
  normalize_connection_error,
}
use fq_client_go.Tcp.Pooled.{
  Read, filled, read_full_into, sized, read_frame_into_buffer, normalized, write_request,
}

-- A read into a buffer is the read into a fresh one, and leaves the buffer as long as it was.
pub record IsRead (buffer : Bytes) (out : Read) (plain : Result Bytes × Wire) : Type 0 where
  pub result : plain.0 ≡ out.0
  pub wire : plain.1 ≡ out.2
  pub room : length out.1 ≡ length buffer

read_full-length : (n : ℕ) (w : Wire) (got : Bytes) → (read_full n w).0 ≡ ok got → length got ≡ n
unfolding read_full
read_full-length n w got h = grind (arith, length-take)

filled-IsRead :
    (buffer : Bytes) (n : ℕ) (w : Wire) (out : Result Bytes × Wire)
    → n ≤ length buffer
    → ((got : Bytes) → out.0 ≡ ok got → length got ≡ n)
    → IsRead buffer (filled buffer n w out) out
unfolding filled
filled-IsRead buffer n w (ok got, v) l h =
    let same = h got refl in
    record {
      result = ap ok (
          sym (
            subst (λ k. take k (copy buffer got) ≡ got) same
              (take-copy buffer got (omega (arith, same)))));
      wire = refl;
      room = length-copy buffer got;
    }
filled-IsRead buffer n w (err e, v) l h = elim (Bool-cases w.closed) [
  | inl c ↦ record { result = refl; wire = refl; room = simp c }
  | inr c ↦ record { result = refl; wire = refl; room = simp c (length-copy buffer w.inbox) }
]

sized-IsRead :
    (buffer : Bytes) (out : Result ℕ × Wire)
    → IsRead buffer (sized buffer out) (
        proceed out λ size.
          if ltb (length buffer) size
          then raise (panic (codes "slice bounds out of range"))
          else read_full size)
unfolding sized read_full_into
sized-IsRead buffer (err e, v) = record { result = refl; wire = refl; room = refl }
sized-IsRead buffer (ok n, v) = elim (Bool-cases (ltb (length buffer) n)) [
  | inl big ↦ rw big (record { result = refl; wire = refl; room = refl })
  | inr fits ↦
      rw fits (filled-IsRead buffer n v (read_full n v) (ground arith) (read_full-length n v))
]

pub read_frame_into_buffer-IsRead :
    (limit : ℕ) (buffer : Bytes) (w : Wire)
    → IsRead buffer
        (read_frame_into_buffer limit buffer w)
        (read_frame_into limit (length buffer) w)
unfolding read_frame_into_buffer read_frame_into
read_frame_into_buffer-IsRead limit buffer w = sized-IsRead buffer (read_frame_size limit w)

pub map_error-normalized :
    {A : Type 0} (r : Result A) (s : Session)
    → map_error normalize_connection_error (r, s) ≡ (normalized r, s)
unfolding normalized
map_error-normalized (ok a) s = refl
map_error-normalized (err e) s = refl

-- Steps that leave the size of the buffers alone.
abbrev pub Keeps : {A : Type 0} → Exec Session A → Type 0
Keeps step = (s : Session) → (step s).1.client.buffer_size ≡ s.client.buffer_size

module _ {A : Type 0} where
  after-Keeps :
      {B : Type 0} (out : Result A × Session) (next : A → Exec Session B) (n : ℕ)
      → ((a : A) → Keeps (next a))
      → out.1.client.buffer_size ≡ n
      → (proceed out next).1.client.buffer_size ≡ n
  after-Keeps (ok a, t) next n l e = l a t ∙ e
  after-Keeps (err e, t) next n l x = x

  on_connection-Keeps : (step : Exec Wire A) → Keeps (on_connection step)
  unfolding on_connection
  on_connection-Keeps step s =
      ap (λ (o : Result A × Session). o.1.client.buffer_size)
        (map_error-normalized (step s.client.connection).0 _)

pub arm-Keeps : (ctx : Ctx) → Keeps (arm ctx)
unfolding arm now
arm-Keeps ctx s = on_connection-Keeps _ (record s { env = (now s.env).1 })

check_request-Keeps : (request : Bytes) → Keeps (check_request request)
unfolding check_request
check_request-Keeps request s = elim (Bool-cases (ltb s.client.max_message_size (length request))) [
  | inl e ↦ rw e refl
  | inr e ↦ rw e refl
]

pub write_request-Keeps : (ctx : Ctx) (request : Bytes) → Keeps (write_request ctx request)
unfolding write_request
write_request-Keeps ctx request s =
    after-Keeps (check_request request s) _ _
      (λ _ t. after-Keeps (arm ctx t) _ _ (λ _ u. on_connection-Keeps _ u) (arm-Keeps ctx t))
      (check_request-Keeps request s)
