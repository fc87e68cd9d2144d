-- ===== src/Tcp/Frames/Reads.antt =====
-- tcp_client.go: frames that are read.
use fq_client_go.Common.{
  ℕ, zero, suc, ◌^◌, ◌≤◌, ◌<◌, ◌≡◌, refl, ap, ◌∙◌, true, false, ◌++◌, append_assoc, Bytes, length,
  length-append, take, drop, take-append, drop-append, ltb, leb, ◌==◌, arith, le→leb,
}
use fq_client_go.Errors.{ok, err}
use fq_client_go.Net.{Wire, read_full}
use fq_client_go.Tcp.{
  put_uint32, read_frame_size, read_frame_into, checked_size, too_large, frame_header_size,
}
use fq_client_go.Tcp.Frames.{uint32_of-put_uint32, frame}

read_full-enough :
    (n : ℕ) (w : Wire)
    → w.closed ≡ false
    → n ≤ length w.inbox
    → read_full n w ≡ (ok (take n w.inbox), record w { inbox = drop n w.inbox })
unfolding read_full
read_full-enough zero w c h = refl
read_full-enough (suc n) w c h =
    let nonzero : (suc n == 0) ≡ false = ground arith in
    let there : leb (suc n) (length w.inbox) ≡ true = le→leb (suc n) (length w.inbox) h in
    simp (nonzero, c, there)

pub read_full-append :
    (p rest : Bytes) (w : Wire)
    → w.closed ≡ false
    → w.inbox ≡ p ++ rest
    → read_full (length p) w ≡ (ok p, record w { inbox = rest })
read_full-append p rest w c e =
    read_full-enough (length p) w c (omega (arith, ap length e, length-append p rest)) ∙ λ i.
    (ok (front i), record w { inbox = back i })
  where
    front : take (length p) w.inbox ≡ p
    front = ap (take (length p)) e ∙ take-append p rest

    back : drop (length p) w.inbox ≡ rest
    back = ap (drop (length p)) e ∙ drop-append p rest

checked_size-fits : (n limit : ℕ) → limit < 2 ^ 32 → n ≤ limit → checked_size n limit ≡ ok n
unfolding checked_size
checked_size-fits n limit small h = ground arith

checked_size-big :
    (n limit : ℕ) → limit < 2 ^ 32 → limit < n → checked_size n limit ≡ err (too_large n limit)
unfolding checked_size
checked_size-big n limit small h = ground arith

read_full-header :
    (n : ℕ) (rest : Bytes) (w : Wire)
    → w.closed ≡ false
    → w.inbox ≡ put_uint32 n ++ rest
    → read_full frame_header_size w ≡ (ok (put_uint32 n), record w { inbox = rest })
unfolding put_uint32
read_full-header n rest w c e = read_full-append (put_uint32 n) rest w c e

-- The header alone, when a whole one has arrived.
pub read_frame_size-header :
    (limit n : ℕ) (rest : Bytes) (w : Wire)
    → w.closed ≡ false
    → n < 2 ^ 32
    → w.inbox ≡ put_uint32 n ++ rest
    → read_frame_size limit w ≡ (checked_size n limit, record w { inbox = rest })
unfolding read_frame_size
read_frame_size-header limit n rest w c small e =
    rw (read_full-header n rest w c e, uint32_of-put_uint32 n small)

-- A frame that has arrived whole and fits is read, and what stands behind it is left.
pub read_frame_into-frame :
    (limit buffer : ℕ) (p rest : Bytes) (w : Wire)
    → w.closed ≡ false
    → limit < 2 ^ 32
    → length p ≤ limit
    → limit ≤ buffer
    → w.inbox ≡ frame p ++ rest
    → read_frame_into limit buffer w ≡ (ok p, record w { inbox = rest })
unfolding read_frame_into
read_frame_into-frame limit buffer p rest w c small fits room e =
    let cut = e ∙ append_assoc (put_uint32 (length p)) p rest in
    let in_range : ltb buffer (length p) ≡ false = ground arith in
    rw
      (
        read_frame_size-header limit (length p) (p ++ rest) w c (omega arith) cut,
        checked_size-fits (length p) limit small fits,
        in_range,
      )
      (read_full-append p rest (record w { inbox = p ++ rest }) c refl)

-- A frame above the limit is refused when its header is read; its payload stays in the stream.
pub read_frame_into-too_large :
    (limit buffer : ℕ) (n : ℕ) (rest : Bytes) (w : Wire)
    → w.closed ≡ false
    → limit < n
    → limit < 2 ^ 32
    → n < 2 ^ 32
    → w.inbox ≡ put_uint32 n ++ rest
    → read_frame_into limit buffer w ≡ (err (too_large n limit), record w { inbox = rest })
unfolding read_frame_into
read_frame_into-too_large limit buffer n rest w c big small fits e =
    rw (read_frame_size-header limit n rest w c fits e, checked_size-big n limit small big)
