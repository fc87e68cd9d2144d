-- ===== src/Buffers/Laws.antt =====
-- bytes_pool.go and bytes_buffer_pool.go: what is handed out is as good as new.
use fq_client_go.Common.{
  ℕ, zero, suc, ◌≤◌, ◌≡◌, refl, ap, sym, ◌∙◌, arith, Option, none, some, List, [], ◌∷◌, Bytes,
  length, take, length-replicate, All,
}
use fq_client_go.Buffers.{
  take_at, take_any, copy, BytesPool, zeroes, new_bytes_pool, get_bytes, put_bytes, BytesBufferPool,
  get_buffer, put_buffer, with_buffer,
}

module _ {ℓ} {A : Type ℓ} (P : A → Type 0) where
  take_at-All :
      (i : ℕ) (fresh : A) (items : List A)
      → P fresh
      → All P items
      → P (take_at i fresh items).0 × All P (take_at i fresh items).1
  unfolding take_at
  take_at-All i fresh [] f h = (f, tt)
  take_at-All zero fresh (x ∷ items) f (h, hs) = (h, hs)
  take_at-All (suc i) fresh (x ∷ items) f (h, hs) =
      let (y, ys) = take_at-All i fresh items f hs in (y, (h, ys))

  pub take_any-All :
      (choice : Option ℕ) (fresh : A) (items : List A)
      → P fresh
      → All P items
      → P (take_any choice fresh items).0 × All P (take_any choice fresh items).1
  unfolding take_any
  take_any-All none fresh items f h = (f, h)
  take_any-All (some i) fresh items f h = take_at-All i fresh items f h

pub length-copy : (dst src : Bytes) → length (copy dst src) ≡ length dst
unfolding copy
length-copy [] src = refl
length-copy (d ∷ dst) [] = refl
length-copy (d ∷ dst) (s ∷ src) = ap suc (length-copy dst src)

pub copy-all : (dst src : Bytes) → length dst ≡ length src → copy dst src ≡ src
unfolding copy
copy-all [] [] h = refl
copy-all [] (s ∷ src) h = absurd (omega (arith, h))
copy-all (d ∷ dst) [] h = absurd (omega (arith, h))
copy-all (d ∷ dst) (s ∷ src) h = ap (λ (t : Bytes). s ∷ t) (copy-all dst src (omega (arith, h)))

-- What was copied to the front of a buffer is read there.
pub take-copy : (dst src : Bytes) → length src ≤ length dst → take (length src) (copy dst src) ≡ src
unfolding copy
take-copy [] [] h = refl
take-copy [] (s ∷ src) h = absurd (omega arith)
take-copy (d ∷ dst) [] h = refl
take-copy (d ∷ dst) (s ∷ src) h = ap (λ (t : Bytes). s ∷ t) (take-copy dst src (omega arith))

-- Every buffer in the pool has its size and holds zeroes.
pub record IsClean (p : BytesPool) : Type 0 where
  pub clean : All (λ b. b ≡ zeroes p) p.items

pub new_bytes_pool-IsClean : (size : ℕ) → IsClean (new_bytes_pool size)
unfolding new_bytes_pool
new_bytes_pool-IsClean size = record { clean = tt }

pub get_bytes-zeroes :
    (choice : Option ℕ) (p : BytesPool)
    → IsClean p
    → ((get_bytes choice p).0 ≡ zeroes p) × IsClean (get_bytes choice p).1
unfolding get_bytes
get_bytes-zeroes choice p c =
    let (b, rest) = take_any-All (λ b. b ≡ zeroes p) choice (zeroes p) p.items refl c.clean in
    (b, record { clean = rest })

pub put_bytes-IsClean :
    (b : Bytes) (p : BytesPool) → length b ≡ p.size → IsClean p → IsClean (put_bytes b p)
unfolding put_bytes
put_bytes-IsClean b p h c = record {
  clean = (copy-all b (zeroes p) (h ∙ sym (length-replicate p.size 0)), c.clean);
}

pub AllEmpty : BytesBufferPool → Type 0
AllEmpty p = All (λ b. b ≡ []) p.items

-- A command that is written to a buffer of the pool is the one that an empty buffer gets, whichever
-- buffer is handed out, and again all buffers of the pool are empty.
pub with_buffer-AllEmpty :
    (choice : Option ℕ) (write : Bytes → Bytes) (p : BytesBufferPool)
    → AllEmpty p
    → ((with_buffer choice write p).0 ≡ write []) × AllEmpty (with_buffer choice write p).1
unfolding with_buffer get_buffer put_buffer AllEmpty
with_buffer-AllEmpty choice write p h =
    let (b, rest) = take_any-All (λ b. b ≡ []) choice [] p.items refl h in
    (ap write b, (refl, rest))
