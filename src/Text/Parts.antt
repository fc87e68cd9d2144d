-- ===== src/Text/Parts.antt =====
-- Splitting at every separator, and joining.
use fq_client_go.Common.{
  ℕ, List, [], ◌∷◌, ◌++◌, ◌≡◌, ◌≢◌, refl, ap, arith, Bytes, Lacks, All, ◌==◌, ==_refl, inl, inr,
  Bool-cases, ◌∙◌,
}
use fq_client_go.Text.{prepend, split, join}

prepend-ne-nil : (c : ℕ) (ps : List Bytes) → ps ≢ [] → prepend c ps ≢ []
unfolding prepend
prepend-ne-nil c [] h = h
prepend-ne-nil c (p ∷ ps) h = λ e. cc

module _ (sep : ℕ) where
  pub split-ne-nil : (s : Bytes) → split s sep ≢ []
  unfolding split
  split-ne-nil [] = λ e. cc
  split-ne-nil (c ∷ s) = elim (Bool-cases (c == sep)) [
    | inl e ↦ rw e (λ n. cc)
    | inr e ↦ rw e (prepend-ne-nil c (split s sep) (split-ne-nil s))
  ]

  -- A part without separators, and what follows it.
  pub split-append : (p r : Bytes) → Lacks sep p → split (p ++ sep ∷ r) sep ≡ p ∷ split r sep
  unfolding split
  split-append [] r h = rw (==_refl sep)
  split-append (c ∷ p) r h = ground (arith, split-append p r h.1)

  pub split-Lacks : (p : Bytes) → Lacks sep p → split p sep ≡ p ∷ []
  unfolding split
  split-Lacks [] h = refl
  split-Lacks (c ∷ p) h = ground (arith, split-Lacks p h.1)

  -- Splitting undoes joining, if there is a part and none holds the separator.
  pub split-join : (ps : List Bytes) → ps ≢ [] → All (Lacks sep) ps → split (join ps sep) sep ≡ ps
  unfolding join
  split-join [] n h = absurd (n refl)
  split-join (p ∷ []) n h = split-Lacks p h.0
  split-join (p ∷ q ∷ ps) n h =
      split-append p (join (q ∷ ps) sep) h.0 ∙ ap (◌∷◌ p) (split-join (q ∷ ps) (λ e. cc) h.1)

  join-prepend : (c : ℕ) (ps : List Bytes) → ps ≢ [] → join (prepend c ps) sep ≡ c ∷ join ps sep
  unfolding join prepend
  join-prepend c [] n = absurd (n refl)
  join-prepend c (p ∷ []) n = refl
  join-prepend c (p ∷ q ∷ ps) n = refl

  join-nil : (ps : List Bytes) → ps ≢ [] → join ([] ∷ ps) sep ≡ sep ∷ join ps sep
  unfolding join
  join-nil [] n = absurd (n refl)
  join-nil (p ∷ ps) n = refl

  -- Joining undoes splitting, for every text.
  pub join-split : (s : Bytes) → join (split s sep) sep ≡ s
  unfolding split
  join-split [] = unfold join in refl
  join-split (c ∷ s) = elim (Bool-cases (c == sep)) [
    | inl e ↦ rw (e, join-nil (split s sep) (split-ne-nil s), join-split s) (ground arith)
    | inr e ↦ rw (e, join-prepend c (split s sep) (split-ne-nil s), join-split s) refl
  ]
