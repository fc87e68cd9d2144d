-- ===== src/Buffers.antt =====
-- bytes_pool.go and bytes_buffer_pool.go: the pools that responses are read into and commands are
-- written to. A `sync.Pool` hands out any of its items, or a new one whenever it likes: the choice is
-- an argument, `none` for a new one.
pub mod Laws
use fq_client_go.Common.{ℕ, zero, suc, Option, none, some, List, [], ◌∷◌, Bytes, replicate}

-- `pool.Get()`, where `New` makes `fresh`.
unfoldable pub take_at {ℓ} : {A : Type ℓ} → ℕ → A → List A → A × List A
take_at i fresh [] = (fresh, [])
take_at zero fresh (x ∷ items) = (x, items)
take_at (suc i) fresh (x ∷ items) = let (y, rest) = take_at i fresh items in (y, x ∷ rest)

unfoldable pub take_any {ℓ} : {A : Type ℓ} → Option ℕ → A → List A → A × List A
unfolding take_at
take_any none fresh items = (fresh, items)
take_any (some i) fresh items = take_at i fresh items

-- Go's `copy`: as many bytes as fit.
unfoldable pub copy : Bytes → Bytes → Bytes
copy [] src = []
copy (d ∷ dst) [] = d ∷ dst
copy (d ∷ dst) (s ∷ src) = s ∷ copy dst src

pub record BytesPool : Type 0 where
  pub size : ℕ
  pub items : List Bytes

-- `clearSlice`, and what `New` makes.
abbrev pub zeroes : BytesPool → Bytes
zeroes p = replicate p.size 0

unfoldable pub new_bytes_pool : ℕ → BytesPool
new_bytes_pool size = record { size = size; items = [] }

unfoldable pub get_bytes : Option ℕ → BytesPool → Bytes × BytesPool
unfolding take_any
get_bytes choice p =
    let (b, rest) = take_any choice (zeroes p) p.items in (b, record p { items = rest })

unfoldable pub put_bytes : Bytes → BytesPool → BytesPool
unfolding copy
put_bytes b p = record p { items = copy b (zeroes p) ∷ p.items }

-- The buffers of the global `bytesBufferPool`, by what they hold.
pub record BytesBufferPool : Type 0 where
  pub items : List Bytes

unfoldable pub new_bytes_buffer_pool : BytesBufferPool
new_bytes_buffer_pool = record { items = [] }

unfoldable pub get_buffer : Option ℕ → BytesBufferPool → Bytes × BytesBufferPool
unfolding take_any
get_buffer choice p = let (b, rest) = take_any choice [] p.items in (b, record p { items = rest })

-- `buf.Reset()`, and back into the pool.
unfoldable pub put_buffer : Bytes → BytesBufferPool → BytesBufferPool
put_buffer buf p = record p { items = [] ∷ p.items }

-- What a method does with a buffer: it writes a command, and the deferred `Put` gives it back.
unfoldable pub with_buffer : Option ℕ → (Bytes → Bytes) → BytesBufferPool → Bytes × BytesBufferPool
unfolding get_buffer put_buffer
with_buffer choice write p =
    let (buf, rest) = get_buffer choice p in
    let command = write buf in (command, put_buffer command rest)
