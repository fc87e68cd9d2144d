-- ===== src/Text/Cut.antt =====
-- Comparing texts, and cutting one at the first separator.
use fq_client_go.Common.{
  ℕ, suc, true, false, ◌≢◌, none, some, [], ◌∷◌, ◌++◌, ◌≡◌, ◌↔◌, refl, arith, Bytes, subst, zero,
  Option-cases, Bool-cases, ◌==◌, take, drop, length, Lacks, take-append, drop-append-suc, inl, inr,
}
use fq_client_go.Text.{bytes_eq, index_byte, split_n2}

pub bytes_eq-≡ : (s t : Bytes) → bytes_eq s t ≡ true → s ≡ t
unfolding bytes_eq
bytes_eq-≡ [] [] h = refl
bytes_eq-≡ [] (d ∷ t) h = grind arith
bytes_eq-≡ (c ∷ s) [] h = grind arith
bytes_eq-≡ (c ∷ s) (d ∷ t) h = elim (Bool-cases (c == d)) [
  | inl e ↦
      let same : c ≡ d = ground arith in
      let rest : s ≡ t = bytes_eq-≡ s t (rw e at h) in λ i. same i ∷ rest i
  | inr e ↦ absurd (let x : false ≡ true = rw e at h in cc)
]

pub bytes_eq_refl : (s : Bytes) → bytes_eq s s ≡ true
unfolding bytes_eq
bytes_eq_refl [] = refl
bytes_eq_refl (c ∷ s) = ground (arith, bytes_eq_refl s)

pub bytes_eq-eq : (s t : Bytes) → bytes_eq s t ≡ true → s ≡ t
unfolding bytes_eq
bytes_eq-eq [] [] h = refl
bytes_eq-eq [] (d ∷ t) h = cc
bytes_eq-eq (c ∷ s) [] h = cc
bytes_eq-eq (c ∷ s) (d ∷ t) h = ground (arith, bytes_eq-eq s t)

pub bytes_eq_iff : (s t : Bytes) → (bytes_eq s t ≡ true) ↔ (s ≡ t)
bytes_eq_iff s t = (bytes_eq-eq s t, λ e. subst (λ u. bytes_eq s u ≡ true) e (bytes_eq_refl s))

pub bytes_eq-ne : (s t : Bytes) → bytes_eq s t ≡ false → s ≢ t
bytes_eq-ne s t n q = let h = (bytes_eq_iff s t).1 q in cc

module _ (sep : ℕ) where
  pub index_byte-append :
      (p r : Bytes) → Lacks sep p → index_byte (p ++ sep ∷ r) sep ≡ some (length p)
  unfolding index_byte
  index_byte-append [] r h = ground arith
  index_byte-append (c ∷ p) r h = ground (arith, index_byte-append p r h.1)

  pub index_byte-Lacks : (s : Bytes) → Lacks sep s → index_byte s sep ≡ none
  unfolding index_byte
  index_byte-Lacks [] h = refl
  index_byte-Lacks (c ∷ s) h = ground (arith, index_byte-Lacks s h.1)

  pub index_byte-none : (s : Bytes) → index_byte s sep ≡ none → Lacks sep s
  unfolding index_byte
  index_byte-none [] h = tt
  index_byte-none (c ∷ s) h = ground (arith, index_byte-none s)

  -- What stands before the first separator, and behind it.
  pub index_byte-some :
      (s : Bytes) (i : ℕ)
      → index_byte s sep ≡ some i
      → (s ≡ take i s ++ sep ∷ drop (suc i) s) × Lacks sep (take i s)
  unfolding index_byte
  index_byte-some [] i h = cc
  index_byte-some (c ∷ s) zero h = elim (Option-cases (index_byte s sep)) [
    | inl e ↦ ground arith
    | inr (i, e) ↦ ground arith
  ]
  index_byte-some (c ∷ s) (suc i) h = elim (Option-cases (index_byte s sep)) [
    | inl e ↦ ground arith
    | inr (j, e) ↦ ground (arith, index_byte-some s j)
  ]

  -- The three parts of a text at its first separator decide the text.
  pub index_byte-cut :
      (s : Bytes) (i : ℕ) → index_byte s sep ≡ some i → s ≡ take i s ++ sep ∷ drop (suc i) s
  index_byte-cut s i h = (index_byte-some s i h).0

pub split_n2-append :
    (sep : ℕ) (p r : Bytes) → Lacks sep p → split_n2 (p ++ sep ∷ r) sep ≡ p ∷ r ∷ []
unfolding split_n2
split_n2-append sep p r h =
    rw (index_byte-append sep p r h, split_n2, take-append p (sep ∷ r), drop-append-suc p sep r)

pub split_n2-Lacks : (sep : ℕ) (s : Bytes) → Lacks sep s → split_n2 s sep ≡ s ∷ []
unfolding split_n2
split_n2-Lacks sep s h = rw (index_byte-Lacks sep s h, split_n2)
