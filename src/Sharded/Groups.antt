-- ===== src/Sharded/Groups.antt =====
-- sharded_client.go: the groups of the keys of `MDel`.
use fq_client_go.Common.{
  ℕ, ◌≡◌, ◌≢◌, sym, ◌∙◌, subst, Bool-cases, inl, inr, Bool, true, false, ◌||◌, List, [], ◌∷◌, All,
  ◌==◌, if◌then◌else◌,
}
use fq_client_go.Errors.{Result, ok, err}
use fq_client_go.Sharded.MDel.{IndexedKey, group}

module _ (P : IndexedKey → Type 0) where
  pub group-All : (shard : ℕ) (ps : List IndexedKey) → All P ps → All P (group shard ps)
  unfolding group
  group-All shard [] h = tt
  group-All shard (p ∷ ps) (h, hs) = elim (Bool-cases (p.shard == shard)) [
    | inl e ↦ rw e (h, group-All shard ps hs)
    | inr e ↦ rw e (group-All shard ps hs)
  ]

  -- What holds in the group of a shard holds of every key of that shard.
  pub group-covers :
      (shard : ℕ) (ps : List IndexedKey)
      → All P (group shard ps)
      → All (λ p. (p.shard == shard) ≡ true → P p) ps
  unfolding group
  group-covers shard [] h = tt
  group-covers shard (p ∷ ps) h = elim (Bool-cases (p.shard == shard)) [
    | inl e ↦
        let (first, rest) =
          subst (λ b. All P (if b then p ∷ group shard ps else group shard ps)) e h in
        ((λ x. first), group-covers shard ps rest)
    | inr e ↦
        let rest = subst (λ b. All P (if b then p ∷ group shard ps else group shard ps)) e h in
        ((λ x. absurd (no (sym e ∙ x))), group-covers shard ps rest)
  ]
    where
      no : false ≢ true
      no = λ e. cc

abbrev pub among : ℕ → List ℕ → Bool
among i [] = false
among i (j ∷ js) = (i == j) || among i js

abbrev pub placed_of : Result (List IndexedKey) → List IndexedKey
placed_of (ok ps) = ps
placed_of (err e) = []
