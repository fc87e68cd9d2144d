-- ===== src/Sharded/Placing.antt =====
-- sharded_client.go: where the answers of the groups of `MDel` go.
use fq_client_go.Common.{
  set-same, set-other, get_elem?-lt, get_elem?-middle, ℕ, zero, suc, ◌+◌, ◌≤◌, ◌<◌, ◌≡◌, refl, ap,
  sym, ◌∙◌, subst, arith, Bool-cases, ◌⊎◌, inl, inr, Bool, true, ◌||◌, some, List, [], ◌∷◌, ◌++◌,
  append_assoc, length, length-append, map, length-set, get_elem?, set, All, ◌==◌,
}
use fq_client_go.Errors.{ok, >>=-succeeds}
use fq_client_go.Types.{CappingKey}
use fq_client_go.Sharded.{ShardingFunc, shard_index_by_key}
use fq_client_go.Sharded.MDel.{IndexedKey, grouped_from, keys_of, put_results}
use fq_client_go.Sharded.Groups.{placed_of, among}

module _ (answer : CappingKey → Bool) (keys : List CappingKey) where
  -- The result at `j` is the answer for the key at `j`.
  abbrev pub Right : List Bool → ℕ → Type 0
  Right rs j = get_elem? rs j ≡ get_elem? (map answer keys) j

  abbrev pub Placed : IndexedKey → Type 0
  Placed p = get_elem? keys p.index ≡ some p.key

  map-get :
      (ks : List CappingKey) (j : ℕ) (k : CappingKey)
      → get_elem? ks j ≡ some k
      → get_elem? (map answer ks) j ≡ some (answer k)
  map-get [] j k h = grind arith
  map-get (x ∷ ks) zero k h = let e : some x ≡ some k = h in cc
  map-get (x ∷ ks) (suc j) k h = map-get ks j k h

  set-Right_here :
      (p : IndexedKey) (rs : List Bool)
      → Placed p
      → length rs ≡ length keys
      → Right (set rs p.index (answer p.key)) p.index
  set-Right_here p rs h l =
      set-same rs p.index (answer p.key) (omega (arith, l, get_elem?-lt keys p.index p.key h))
      ∙ sym (map-get keys p.index p.key h)

  set-Right :
      (p : IndexedKey) (rs : List Bool) (j : ℕ)
      → Placed p
      → length rs ≡ length keys
      → Right rs j
      → Right (set rs p.index (answer p.key)) j
  set-Right p rs j h l r = elim (Bool-cases (p.index == j)) [
    | inl e ↦
        let same : p.index ≡ j = ground arith in
        subst (Right (set rs p.index (answer p.key))) same (set-Right_here p rs h l)
    | inr e ↦ set-other rs p.index j (answer p.key) (ground arith) ∙ r
  ]

  pub put_results-keeps :
      (ps : List IndexedKey) (rs : List Bool) (j : ℕ)
      → All Placed ps
      → length rs ≡ length keys
      → Right rs j
      → Right (put_results ps (map answer (keys_of ps)) rs) j
  unfolding put_results keys_of
  put_results-keeps [] rs j h l r = r
  put_results-keeps (p ∷ ps) rs j (h, hs) l r =
      put_results-keeps ps (set rs p.index (answer p.key)) j hs
        (length-set rs p.index (answer p.key) ∙ l) (set-Right p rs j h l r)

  pub length-put_results :
      (ps : List IndexedKey) (bs rs : List Bool) → length (put_results ps bs rs) ≡ length rs
  unfolding put_results
  length-put_results [] bs rs = refl
  length-put_results (p ∷ ps) [] rs = refl
  length-put_results (p ∷ ps) (b ∷ bs) rs =
      length-put_results ps bs (set rs p.index b) ∙ length-set rs p.index b

  pub put_results-Right :
      (ps : List IndexedKey) (rs : List Bool)
      → All Placed ps
      → length rs ≡ length keys
      → All (λ p. Right (put_results ps (map answer (keys_of ps)) rs) p.index) ps
  unfolding put_results keys_of
  put_results-Right [] rs h l = tt
  put_results-Right (p ∷ ps) rs (h, hs) l =
      let next = set rs p.index (answer p.key) in
      let m = length-set rs p.index (answer p.key) ∙ l in
      (
        put_results-keeps ps next p.index hs m (set-Right_here p rs h l),
        put_results-Right ps next hs m,
      )

  -- Where the answers are right so far: at every key whose shard is not still to come.
  abbrev pub Pending : List ℕ → List Bool → IndexedKey → Type 0
  Pending order rs p = (among p.shard order ≡ true) ⊎ Right rs p.index

  pub group-step :
      (shard : ℕ) (order : List ℕ) (rs next : List Bool) (ps : List IndexedKey)
      → All (λ p. (p.shard == shard) ≡ true → Right next p.index) ps
      → ((j : ℕ) → Right rs j → Right next j)
      → All (Pending (shard ∷ order) rs) ps
      → All (Pending order next) ps
  group-step shard order rs next [] g k h = tt
  group-step shard order rs next (p ∷ ps) (g, gs) k (inr r, hs) =
      (inr (k p.index r), group-step shard order rs next ps gs k hs)
  group-step shard order rs next (p ∷ ps) (g, gs) k (inl m, hs) = (
    elim (Bool-cases (p.shard == shard)) [
      | inl e ↦ inr (g e)
      | inr e ↦ inl (sym (ap (λ b. b || among p.shard order) e) ∙ m)
    ],
    group-step shard order rs next ps gs k hs,
  )

  module _ (sharding_func : ShardingFunc) (count : ℕ) where
    pub grouped_from-Placed :
        (front rest : List CappingKey) (i : ℕ) (ps : List IndexedKey)
        → grouped_from sharding_func count i rest ≡ ok ps
        → keys ≡ front ++ rest
        → i ≡ length front
        → All Placed ps
    unfolding grouped_from
    grouped_from-Placed front [] i ps e k n =
        let same : ok [] ≡ ok ps = e in subst (All Placed) (ap placed_of same) tt
    grouped_from-Placed front (c ∷ rest) i ps e k n =
        let (shard, found, e1) = >>=-succeeds (shard_index_by_key sharding_func count c.key) _ e in
        let (qs, more, e2) = >>=-succeeds (grouped_from sharding_func count (suc i) rest) _ e1 in
        subst (All Placed) (ap placed_of e2) (
          ap (λ ks. get_elem? ks i) k
              ∙ ap (get_elem? (front ++ c ∷ rest)) n
              ∙ get_elem?-middle front c rest,
          grouped_from-Placed (front ++ c ∷ []) rest (suc i) qs more
              (k ∙ sym (append_assoc front (c ∷ []) rest))
              (omega (arith, n, length-append front (c ∷ []))),
        )

    pub grouped_from-covers :
        (Q : ℕ → Type 0) (rest : List CappingKey) (i : ℕ) (ps : List IndexedKey)
        → grouped_from sharding_func count i rest ≡ ok ps
        → All (λ p. Q p.index) ps
        → (j : ℕ) → i ≤ j
        → j < i + length rest
        → Q j
    unfolding grouped_from
    grouped_from-covers Q [] i ps e h j a b = absurd (omega arith)
    grouped_from-covers Q (c ∷ rest) i ps e h j a b =
        let (shard, found, e1) = >>=-succeeds (shard_index_by_key sharding_func count c.key) _ e in
        let (qs, more, e2) = >>=-succeeds (grouped_from sharding_func count (suc i) rest) _ e1 in
        let (first, others) = subst (All (λ p. Q p.index)) (sym (ap placed_of e2)) h in
        elim (Bool-cases (i == j)) [
          | inl same ↦ let eq : i ≡ j = ground arith in subst Q eq first
          | inr other ↦
              grouped_from-covers Q rest (suc i) qs more others j (ground arith) (omega arith)
        ]

  pub length-keys_of : (ps : List IndexedKey) → length (keys_of ps) ≡ length ps
  unfolding keys_of
  length-keys_of [] = refl
  length-keys_of (p ∷ ps) = ap suc (length-keys_of ps)
