-- ===== src/Response/Values.antt =====
-- `respDataToValues` against its specification: parse each part between the separators.
use fq_client_go.Common.{
  ℕ, zero, suc, ◌<◌, ◌≡◌, refl, ap, ◌∙◌, true, false, List, [], ◌∷◌, ◌++◌, Bytes, Option, none,
  some, arith, length, take, drop, ◌==◌, Lacks, length-drop, Option-cases, inl, inr, append_assoc,
  ==_refl, subst,
}
use fq_client_go.Text.{index_byte}
use fq_client_go.Text.Cut.{index_byte-some, index_byte-none}
use fq_client_go.Text.Parts.{split-append, split-Lacks}
use fq_client_go.Decimal.{parse_uint}
use fq_client_go.Response.{multi_data_delimiter}
use fq_client_go.Response.Readers.{next_value, next_end, values_loop, resp_data_to_values, fields}

unfoldable pub cons_value : Option ℕ → Option (List ℕ) → Option (List ℕ)
cons_value none rest = none
cons_value (some v) none = none
cons_value (some v) (some vs) = some (v ∷ vs)

-- Every part, or nothing.
unfoldable pub parse_all : List Bytes → Option (List ℕ)
unfolding cons_value
parse_all [] = some []
parse_all (p ∷ ps) = cons_value (parse_uint 64 p) (parse_all ps)

-- The part up to `next_end`, and whether it is the last.
data Ahead (body : Bytes) : Type 0 where
  last_part : Lacks multi_data_delimiter body → next_end body ≡ length body → Ahead body
  more_parts :
      (i : ℕ)
      → next_end body ≡ i
      → i < length body
      → fields body ≡ take i body ∷ fields (drop (suc i) body)
      → Ahead body

index_lt : (body : Bytes) (i : ℕ) → index_byte body multi_data_delimiter ≡ some i → i < length body
unfolding index_byte
index_lt [] i h = cc
index_lt (c ∷ s) i h = elim (Option-cases (index_byte s multi_data_delimiter)) [
  | inl e ↦ ground arith
  | inr (j, e) ↦ ground (arith, index_lt s j)
]

ahead : (body : Bytes) → Ahead body
unfolding next_end
ahead body = elim (Option-cases (index_byte body multi_data_delimiter)) [
  | inl e ↦ last_part (index_byte-none multi_data_delimiter body e) (rw (e, next_end))
  | inr (i, e) ↦
      let (cut, lacks) = index_byte-some multi_data_delimiter body i e in
      more_parts i (rw (e, next_end)) (index_lt body i e)
        (ap fields cut ∙ split-append multi_data_delimiter (take i body) (drop (suc i) body) lacks)
]

take-length {ℓ} : {A : Type ℓ} (xs : List A) → take (length xs) xs ≡ xs
take-length [] = refl
take-length (x ∷ xs) = ap (◌∷◌ x) (take-length xs)

abbrev behind : List ℕ → Option (List ℕ) → Option (List ℕ)
behind values none = none
behind values (some vs) = some (values ++ vs)

last_round :
    (o : Option ℕ) (values : List ℕ) (more : ℕ → Option (List ℕ))
    → next_value o true values more ≡ behind values (cons_value o (some []))
unfolding next_value cons_value
last_round none values more = refl
last_round (some v) values more = refl

next_round :
    (o : Option ℕ) (values : List ℕ) (rest : Option (List ℕ)) (more : ℕ → Option (List ℕ))
    → ((v : ℕ) → more v ≡ behind (values ++ v ∷ []) rest)
    → next_value o false values more ≡ behind values (cons_value o rest)
unfolding next_value cons_value
next_round none values rest more h = refl
next_round (some v) values none more h = h v
next_round (some v) values (some vs) more h = h v ∙ ap some (append_assoc values (v ∷ []) vs)

-- With fuel for each byte that is left, the loop appends the parsed parts.
values_loop_lem :
    (fuel : ℕ) (body : Bytes) (values : List ℕ)
    → length body < fuel
    → values_loop fuel body (next_end body) values ≡ behind values (parse_all (fields body))
unfolding values_loop parse_all
values_loop_lem zero body values h = absurd (omega arith)
values_loop_lem (suc fuel) body values h = elim (ahead body) [
  | last_part lacks e ↦
      rw (e, take-length body, split-Lacks multi_data_delimiter body lacks, ==_refl (length body))
        (last_round (parse_uint 64 body) values _)
  | more_parts i e lt parts ↦
      let not_last : (i == length body) ≡ false = ground arith in
      rw (e, parts, not_last)
        (next_round (parse_uint 64 (take i body)) values (parse_all (fields (drop (suc i) body))) _
          λ v.
            values_loop_lem fuel (drop (suc i) body) (values ++ v ∷ [])
              (omega (arith, length-drop (suc i) body)))
]

behind-nil : (o : Option (List ℕ)) → behind [] o ≡ o
behind-nil none = refl
behind-nil (some vs) = refl

single : (o : Option ℕ) → (elim o [ none ↦ none | some v ↦ some (v ∷ []) ]) ≡ cons_value o (some [])
unfolding cons_value
single none = refl
single (some v) = refl

-- The loop over the separators parses each part between them, and fails if one of them is no number
-- of 64 bits.
pub resp_data_to_values_lem : (body : Bytes) → resp_data_to_values body ≡ parse_all (fields body)
unfolding resp_data_to_values parse_all
resp_data_to_values_lem body = elim (Option-cases (index_byte body multi_data_delimiter)) [
  | inl e ↦
      rw
        (
          e,
          resp_data_to_values,
          split-Lacks multi_data_delimiter body (index_byte-none multi_data_delimiter body e),
        )
        (single (parse_uint 64 body))
  | inr (i, e) ↦
      let at_end : next_end body ≡ i = unfold next_end in rw (e, next_end) in
      rw (e, resp_data_to_values)
        (subst (λ k. values_loop (suc (length body)) body k [] ≡ parse_all (fields body)) at_end
          (values_loop_lem (suc (length body)) body [] (omega arith)
            ∙ behind-nil (parse_all (fields body))))
]
