-- ===== src/Sharded/Merged.antt =====
-- sharded_client.go: `MDel` returns the answers in the order of the keys, whatever the order in which
-- the map yields the groups.
use fq_client_go.Common.{
  set-other, same_elements, All-map, ℕ, zero, suc, ◌≡◌, ◌≢◌, refl, ap, sym, ◌∙◌, arith, inl, inr,
  Bool, true, false, some, List, [], ◌∷◌, length, map, length-map, get_elem?, set, replicate,
  length-replicate, All, ◌==◌, ==_refl,
}
use fq_client_go.Errors.{ok}
use fq_client_go.Types.{CappingKey}
use fq_client_go.Sharded.{ShardingFunc, Command, on_shard, put_first, put_behind}
use fq_client_go.Sharded.MDel.{
  IndexedKey, grouped_from, group, keys_of, put_results, right_length, group_done, groups_loop,
  mdel_grouped, mdel_by_shard,
}
use fq_client_go.Sharded.Groups.{group-All, group-covers, among}
use fq_client_go.Sharded.Placing.{
  Right, Placed, Pending, put_results-keeps, put_results-Right, length-put_results, group-step,
  grouped_from-Placed, grouped_from-covers, length-keys_of,
}

-- Every shard once.
abbrev pub IsDistinct : List ℕ → Type 0
IsDistinct [] = Unit {0}
IsDistinct (i ∷ is) = (among i is ≡ false) × IsDistinct is

-- Shard `i` answers the keys of its group.
pub record AnswersKeys {S : Type 0} (answer : CappingKey → Bool)
    (mdel : List CappingKey → Command S (List Bool)) (placed : List IndexedKey) (ss : List S)
    (i : ℕ) : Type 0 where
  pub before : S
  pub after : S
  pub there : get_elem? ss i ≡ some before
  pub answers :
      mdel (keys_of (group i placed)) before
      ≡ some (ok (map answer (keys_of (group i placed))), after)

module _ (answer : CappingKey → Bool) (keys : List CappingKey) where
  module _ {S : Type 0} (mdel : List CappingKey → Command S (List Bool)) where
    on_shard-ok :
        {A : Type 0} (command : Command S A) (i : ℕ) (ss : List S) (s t : S) (a : A)
        → get_elem? ss i ≡ some s
        → command s ≡ some (ok a, t)
        → on_shard i command ss ≡ some (ok a, set ss i t)
    unfolding on_shard put_first put_behind
    on_shard-ok command i [] s t a g e = grind arith
    on_shard-ok command zero (x ∷ ss) s t a g e =
        let same : some x ≡ some s = g in ap (put_first ss) (ap command (some_inj same) ∙ e)
      where
        some_inj : some x ≡ some s → x ≡ s
        some_inj q = cc
    on_shard-ok command (suc i) (x ∷ ss) s t a g e =
        ap (put_behind x) (on_shard-ok command i ss s t a g e)

    -- What one shard does leaves the others as they were.
    AnswersKeys-set :
        (placed : List IndexedKey) (order : List ℕ) (shard : ℕ) (ss : List S) (t : S)
        → among shard order ≡ false
        → All (AnswersKeys answer mdel placed ss) order
        → All (AnswersKeys answer mdel placed (set ss shard t)) order
    AnswersKeys-set placed [] shard ss t n h = tt
    AnswersKeys-set placed (i ∷ order) shard ss t n (h, hs) = (
      record {
        before = h.before;
        after = h.after;
        there = set-other ss shard i t (ground arith) ∙ h.there;
        answers = h.answers;
      },
      AnswersKeys-set placed order shard ss t (ground arith) hs,
    )

    groups_loop-Right :
        (placed : List IndexedKey) (order : List ℕ) (rs : List Bool) (ss : List S)
        → All (Placed answer keys) placed
        → IsDistinct order
        → All (AnswersKeys answer mdel placed ss) order
        → length rs ≡ length keys
        → All (Pending answer keys order rs) placed
        → (results : List Bool) × (after : List S) × (groups_loop mdel placed order rs ss
            ≡ some (ok results, after))
          × (length results ≡ length keys)
          × All (λ p. Right answer keys results p.index) placed
    unfolding groups_loop group_done right_length
    groups_loop-Right placed [] rs ss h d o l w =
        (rs, ss, refl, l, All-map (λ p x. settled p x) placed w)
      where
        settled : (p : IndexedKey) → Pending answer keys [] rs p → Right answer keys rs p.index
        settled p (inl m) = absurd (no m)
          where
            no : false ≢ true
            no = λ e. cc
        settled p (inr r) = r
    groups_loop-Right placed (shard ∷ order) rs ss h (new, d) (i, o) l w =
        let ps = group shard placed in
        let bs = map answer (keys_of ps) in
        let e = on_shard-ok (mdel (keys_of ps)) shard ss i.before i.after bs i.there i.answers in
        let ts = set ss shard i.after in
        let next = put_results ps bs rs in
        let in_group = group-All (Placed answer keys) shard placed h in
        let n = length-put_results answer keys ps bs rs ∙ l in
        let pending =
          group-step answer keys shard order rs next placed
            (group-covers (λ p. Right answer keys next p.index) shard placed
              (put_results-Right answer keys ps rs in_group l))
            (λ j r. put_results-keeps answer keys ps rs j in_group l r) w in
        let (results, after, f, a, b) =
          groups_loop-Right placed order next ts h d
            (AnswersKeys-set placed order shard ss i.after new o) n pending in
        let right : (length bs == length ps) ≡ true =
          ap (λ k. k == length ps) (length-map (keys_of ps) answer ∙ length-keys_of answer keys ps)
          ∙ ==_refl (length ps) in
        (
          results,
          after,
          ap (λ out. group_done ps rs out (λ u us. groups_loop mdel placed order u us)) e
              ∙ ap (λ b. right_length b ts (λ _. groups_loop mdel placed order next ts)) right
              ∙ f,
          a,
          b,
        )

-- Each key has a shard. The map yields each shard that has a key once, in any order, and the shard
-- answers the keys of its group, in the state that it is in, as `answer` says for each. Then `MDel`
-- returns the answers in the order of the keys.
pub mdel_by_shard-answers :
    {S : Type 0} (sharding_func : ShardingFunc) (mdel : List CappingKey → Command S (List Bool))
    (answer : CappingKey → Bool) (order : List ℕ) (keys : List CappingKey) (shards : List S)
    (placed : List IndexedKey)
    → grouped_from sharding_func (length shards) 0 keys ≡ ok placed
    → IsDistinct order
    → All (λ p. among p.shard order ≡ true) placed
    → All (AnswersKeys answer mdel placed shards) order
    → (after : List S) × (mdel_by_shard sharding_func mdel order keys shards
        ≡ some (ok (map answer keys), after))
unfolding mdel_by_shard mdel_grouped
mdel_by_shard-answers sharding_func mdel answer order keys shards placed known distinct covered
      answers =
    let count = length shards in
    let start = replicate (length keys) false in
    let h = grouped_from-Placed answer keys sharding_func count [] keys 0 placed known refl refl in
    let (results, after, e, l, right) =
      groups_loop-Right answer keys mdel placed order start shards h distinct answers
        (length-replicate (length keys) false) (All-map (λ p x. inl x) placed covered) in
    let same : results ≡ map answer keys =
      same_elements results (map answer keys) (l ∙ sym (length-map keys answer)) λ j m.
        grouped_from-covers answer keys sharding_func count
          (λ i. get_elem? results i ≡ get_elem? (map answer keys) i) keys 0 placed known right j
          (omega arith) (omega (arith, l)) in
    (
      after,
      ap (λ r. mdel_grouped mdel order (length keys) r shards) known
          ∙ e
          ∙ ap (λ rs. some (ok rs, after)) same,
    )
