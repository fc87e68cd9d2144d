-- ===== src/Text.antt =====
-- The functions of Go's `bytes` and `strings` packages that the client calls, over lists of bytes.
pub mod Cut
pub mod Parts
use fq_client_go.Common.{
  ℕ, suc, Bool, true, false, ◌&&◌, Option, none, some, List, [], ◌∷◌, ◌++◌, Bytes, take, drop, ◌==◌,
  if◌then◌else◌,
}

-- `s == t`
unfoldable pub bytes_eq : Bytes → Bytes → Bool
bytes_eq [] [] = true
bytes_eq [] (d ∷ t) = false
bytes_eq (c ∷ s) [] = false
bytes_eq (c ∷ s) (d ∷ t) = c == d && bytes_eq s t

-- `bytes.IndexByte(s, c)`; `none` is -1.
unfoldable pub index_byte : Bytes → ℕ → Option ℕ
index_byte [] c = none
index_byte (b ∷ s) c =
    let rest = index_byte s c in
    if b == c then some 0 else elim rest [ none ↦ none | some i ↦ some (suc i) ]

unfoldable pub prepend : ℕ → List Bytes → List Bytes
prepend c [] = []
prepend c (p ∷ ps) = (c ∷ p) ∷ ps

-- `bytes.Split(s, []byte{sep})`: one part more than there are separators.
unfoldable pub split : Bytes → ℕ → List Bytes
unfolding prepend
split [] sep = [] ∷ []
split (c ∷ s) sep = if c == sep then [] ∷ split s sep else prepend c (split s sep)

-- `bytes.SplitN(s, []byte{sep}, 2)`
unfoldable pub split_n2 : Bytes → ℕ → List Bytes
split_n2 s sep = elim (index_byte s sep) [ none ↦ s ∷ [] | some i ↦ take i s ∷ drop (suc i) s ∷ [] ]

-- The parts with one separator between each two.
unfoldable pub join : List Bytes → ℕ → Bytes
join [] sep = []
join (p ∷ []) sep = p
join (p ∷ q ∷ ps) sep = p ++ sep ∷ join (q ∷ ps) sep
