-- ===== src/Tcp/Frames/Sends.antt =====
-- tcp_client.go: frames that get through, and are read on the other side.
use fq_client_go.Common.{
  ℕ, suc, ◌-◌, ◌%◌, ◌^◌, ◌≤◌, ◌<◌, ◌≡◌, refl, ap, sym, ◌∙◌, false, List, [], ◌∷◌, ◌++◌, append-nil,
  Bytes, length, All, ltb, ◌==◌, min, arith,
}
use fq_client_go.Errors.{Result, ok}
use fq_client_go.Exec.{proceed, proceed-ok}
use fq_client_go.Net.{Wire, WriteStep}
use fq_client_go.Tcp.{put_uint32, write_rounds, write_all, write_frame, read_frame_into}
use fq_client_go.Tcp.Frames.{
  frame, Wrote, IsSteady, Wrote-trans, Wrote-self, Written, write_rounds-Written,
  write_rounds-steady, IsOpen, all_sent, part_sent,
}
use fq_client_go.Tcp.Frames.Reads.{read_frame_into-frame}

write_rounds-calm :
    (steps : List WriteStep) (body : Bytes) (w : Wire)
    → All IsSteady steps
    → All IsSteady (write_rounds steps body w).1.write_steps
unfolding write_rounds
write_rounds-calm steps [] w h = h
write_rounds-calm [] (c ∷ rest) w h = tt
write_rounds-calm (step ∷ steps) (c ∷ rest) w (calm, h) =
    let some_taken : (min step.taken (suc (length rest)) == 0) ≡ false = ground (arith, calm.1) in
    rw (calm.0, some_taken) (write_rounds-calm steps _ _ h)

-- A write that got through, on a connection that stays open.
pub record Sends (w : Wire) (body : Bytes) (out : Result (Unit {0}) × Wire) : Type 0 where
  pub success : out.0 ≡ ok tt
  pub wrote : Wrote w out.1 body
  pub still_open : IsOpen out.1

Written-Sends :
    (w : Wire) (body : Bytes) (out : Result (Unit {0}) × Wire)
    → w.closed ≡ false
    → out.0 ≡ ok tt
    → All IsSteady out.1.write_steps
    → Written w body out
    → Sends w body out
Written-Sends w body out c s calm (all_sent e g) = record {
  success = e;
  wrote = g;
  still_open = record { open_wire = g.closed ∙ c; calm = calm };
}
Written-Sends w body out c s calm (part_sent e front back q r g) = cc

pub write_all-Sends : (body : Bytes) (w : Wire) → IsOpen w → Sends w body (write_all body w)
unfolding write_all
write_all-Sends [] w o = record {
  success = refl;
  wrote = Wrote-self w w.write_steps;
  still_open = o;
}
write_all-Sends (c ∷ rest) w o = simp o.open_wire (
    Written-Sends w (c ∷ rest) (write_rounds w.write_steps (c ∷ rest) w) o.open_wire
      (write_rounds-steady w.write_steps (c ∷ rest) w o.calm)
      (write_rounds-calm w.write_steps (c ∷ rest) w o.calm)
      (write_rounds-Written w.write_steps (c ∷ rest) w))

Sends-then :
    (w : Wire) (front back : Bytes) (out : Result (Unit {0}) × Wire)
    → Sends w front out
    → Sends out.1 back (write_all back out.1)
    → Sends w (front ++ back) (proceed out (λ _. write_all back))
Sends-then w front back out g h = rw (proceed-ok out (λ _. write_all back) tt g.success) (record {
  success = h.success;
  wrote = Wrote-trans w out.1 (write_all back out.1).1 front back g.wrote h.wrote;
  still_open = h.still_open;
})

-- On an open connection whose writes go through, if in parts, a frame is sent whole: the length of
-- the payload in four bytes, and the payload.
pub write_frame-Sends :
    (p : Bytes) (w : Wire) → length p < 2 ^ 32 → IsOpen w → Sends w (frame p) (write_frame p w)
unfolding write_frame
write_frame-Sends p w small o =
    let not_big : ltb (2 ^ 32 - 1) (length p) ≡ false = ground arith in
    let same : length p % 2 ^ 32 ≡ length p = omega arith in
    let header = write_all-Sends (put_uint32 (length p)) w o in
    rw (not_big, same)
      (Sends-then w (put_uint32 (length p)) p (write_all (put_uint32 (length p)) w) header
        (write_all-Sends p (write_all (put_uint32 (length p)) w).1 header.still_open))

-- What one side wrote on a connection with nothing else in flight is read by the other side as the
-- same payload.
pub read_frame_into-write_frame :
    (limit buffer : ℕ) (p : Bytes) (w v : Wire)
    → limit < 2 ^ 32
    → length p ≤ limit
    → limit ≤ buffer
    → IsOpen w
    → w.sent ≡ []
    → v.closed ≡ false
    → v.inbox ≡ (write_frame p w).1.sent
    → read_frame_into limit buffer v ≡ (ok p, record v { inbox = [] })
read_frame_into-write_frame limit buffer p w v small fits room o fresh open_v arrived =
    let wrote = (write_frame-Sends p w (omega arith) o).wrote in
    read_frame_into-frame limit buffer p [] v open_v small fits room
      (arrived ∙ wrote.sent ∙ ap (λ (s : Bytes). s ++ frame p) fresh ∙ sym (append-nil (frame p)))
