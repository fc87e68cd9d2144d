-- ===== src/Response/Gives.antt =====
-- response.go: the readers of the `ok` branches give what the fields spell.
use fq_client_go.Common.{
  ℕ, ◌-◌, ◌%◌, ◌<◌, ◌^◌, ◌≡◌, ◌≢◌, refl, sym, ◌∙◌, subst, arith, Bool, false, true, not, ◌||◌, some,
  Option, none, List, [], ◌∷◌, Bytes, codes, length, ltb, ltb→lt, ◌==◌, Bool-cases, Option-cases,
  inl, inr,
}
use fq_client_go.Errors.{Error, Result, ok, err, ◌>>=◌}
use fq_client_go.Text.{bytes_eq}
use fq_client_go.Text.Cut.{bytes_eq-≡}
use fq_client_go.Decimal.{scan_digits, fit, parse_uint}
use fq_client_go.Response.{parse_bool_field, uint_field}
use fq_client_go.Response.Values.{cons_value, parse_all, resp_data_to_values_lem}
use fq_client_go.Response.Readers.{
  fields, size_field, read_hello, read_values, resp_data_to_values, read_rate_limit,
  read_quota_acquire, read_clients, read_quota_fields, read_quota_info, read_keys, read_scan_fields,
  read_scan, read_limit_event, read_quota_event,
}
use fq_client_go.Response.Spelled.{
  IsNumber, IsFlag, NumbersSpelled, HelloSpelled, RateLimitSpelled, QuotaAcquireSpelled,
  ClientsSpelled, QuotaInfoSpelled, KeysSpelled, ScanSpelled, LimitEventSpelled, QuotaEventSpelled,
}

-- A value with the property, or an error.
pub data Gives {A : Type 0} (P : A → Type 0) : Result A → Type 0 where
  gives : (v : A) → P v → Gives P (ok v)
  fails : (e : Error) → Gives P (err e)

Gives->>= :
    {A B : Type 0} (Q : A → Type 0) (P : B → Type 0) (m : Result A) (next : A → Result B)
    → Gives Q m
    → ((v : A) → Q v → Gives P (next v))
    → Gives P (m >>= next)
Gives->>= Q P _ next (fails e) h = fails e
Gives->>= Q P _ next (gives v q) h = h v q

fit-some : (bits : ℕ) (o : Option ℕ) (v : ℕ) → fit bits o ≡ some v → (o ≡ some v) × (v < 2 ^ bits)
unfolding fit
fit-some bits none v e = grind arith
fit-some bits (some n) v e = elim (Bool-cases (ltb n (2 ^ bits))) [
  | inl y ↦
      let same : some n ≡ some v = rw y at e in
      let eq : n ≡ v = cc in (same, subst (λ k. k < 2 ^ bits) eq (ltb→lt n (2 ^ bits) y))
  | inr n ↦ absurd (let x : none ≡ some v = rw n at e in cc)
]

parse_uint-IsNumber :
    (bits : ℕ) (s : Bytes) (v : ℕ) → parse_uint bits s ≡ some v → IsNumber bits s v
unfolding parse_uint
parse_uint-IsNumber bits [] v e = grind arith
parse_uint-IsNumber bits (c ∷ s) v e =
    let (digits, small) = fit-some bits (scan_digits 0 (c ∷ s)) v e in ((λ x. cc), digits, small)

pub uint_field-Gives : (bits : ℕ) (s : Bytes) → Gives (IsNumber bits s) (uint_field bits s)
unfolding uint_field
uint_field-Gives bits s = elim (Option-cases (parse_uint bits s)) [
  | inl e ↦ rw (e, uint_field) (fails _)
  | inr (v, e) ↦ rw (e, uint_field) (gives v (parse_uint-IsNumber bits s v e))
]

parse_bool_field-Gives : (s : Bytes) → Gives (IsFlag s) (parse_bool_field s)
unfolding parse_bool_field
parse_bool_field-Gives s = elim (Bool-cases (bytes_eq s (codes "0"))) [
  | inl e ↦ rw e (gives false (bytes_eq-≡ s (codes "0") e))
  | inr n ↦ elim (Bool-cases (bytes_eq s (codes "1"))) [
    | inl e ↦ rw (n, e) (gives true (bytes_eq-≡ s (codes "1") e))
    | inr m ↦ rw (n, m) (fails _)
  ]
]

module _ {B : Type 0} (P : B → Type 0) where
  number_then :
      (bits : ℕ) (s : Bytes) (next : ℕ → Result B)
      → ((v : ℕ) → IsNumber bits s v → Gives P (next v))
      → Gives P (uint_field bits s >>= next)
  number_then bits s next h =
      Gives->>= (IsNumber bits s) P (uint_field bits s) next (uint_field-Gives bits s) h

  -- The conversion to 32 bits, behind a field of 32 bits.
  word_then :
      (s : Bytes) (next : ℕ → Result B)
      → ((v : ℕ) → IsNumber 32 s (v % 2 ^ 32) → Gives P (next v))
      → Gives P (uint_field 32 s >>= next)
  word_then s next h = number_then 32 s next λ v (n, d, l).
      let whole : v ≡ v % 2 ^ 32 = omega arith in h v (subst (IsNumber 32 s) whole (n, d, l))

  flag_then :
      (s : Bytes) (next : Bool → Result B)
      → ((v : Bool) → IsFlag s v → Gives P (next v))
      → Gives P (parse_bool_field s >>= next)
  flag_then s next h = Gives->>= (IsFlag s) P (parse_bool_field s) next (parse_bool_field-Gives s) h

size_field-Gives : (s : Bytes) → Gives (λ n. IsNumber 31 s n × (n ≢ 0)) (size_field s)
unfolding size_field
size_field-Gives s = number_then _ 31 s _ λ n l. elim (Bool-cases (n == 0)) [
  | inl e ↦ rw e (fails _)
  | inr e ↦ rw e (gives n (l, λ z. ground arith))
]

pub read_hello-Gives : (fs : List Bytes) → Gives (HelloSpelled fs) (read_hello fs)
unfolding read_hello
read_hello-Gives (f0 ∷ f1 ∷ f2 ∷ f3 ∷ []) = number_then _ 64 f0 _ λ version v.
    Gives->>= (λ n. IsNumber 31 f1 n × (n ≢ 0)) _ (size_field f1) _ (size_field-Gives f1)
      λ size (s, positive). flag_then _ f2 _ λ required r. gives _ (v, s, positive, r, refl)
read_hello-Gives _ = fails _

pub read_rate_limit-Gives : (fs : List Bytes) → Gives (RateLimitSpelled fs) (read_rate_limit fs)
unfolding read_rate_limit
read_rate_limit-Gives (f0 ∷ f1 ∷ f2 ∷ f3 ∷ []) = flag_then _ f0 _ λ a la.
    number_then _ 64 f1 _
      λ b lb. number_then _ 64 f2 _ λ c lc. word_then _ f3 _ λ d ld. gives _ (la, lb, lc, ld)
read_rate_limit-Gives _ = fails _

pub read_quota_acquire-Gives :
    (fs : List Bytes) → Gives (QuotaAcquireSpelled fs) (read_quota_acquire fs)
unfolding read_quota_acquire
read_quota_acquire-Gives (f0 ∷ f1 ∷ f2 ∷ f3 ∷ f4 ∷ []) = flag_then _ f0 _ λ a la.
    number_then _ 64 f1 _ λ b lb.
      number_then _ 64 f2 _
        λ c lc. number_then _ 64 f3 _ λ d ld. word_then _ f4 _ λ e le. gives _ (la, lb, lc, ld, le)
read_quota_acquire-Gives _ = fails _

pub read_limit_event-Gives : (fs : List Bytes) → Gives (LimitEventSpelled fs) (read_limit_event fs)
unfolding read_limit_event
read_limit_event-Gives (f0 ∷ f1 ∷ f2 ∷ f3 ∷ []) =
    word_then _ f1 _
      λ a la. number_then _ 64 f2 _ λ b lb. word_then _ f3 _ λ c lc. gives _ (refl, la, lb, lc)
read_limit_event-Gives _ = fails _

pub read_quota_event-Gives : (fs : List Bytes) → Gives (QuotaEventSpelled fs) (read_quota_event fs)
unfolding read_quota_event
read_quota_event-Gives (f0 ∷ f1 ∷ f2 ∷ f3 ∷ f4 ∷ f5 ∷ f6 ∷ []) = number_then _ 64 f3 _ λ a la.
    number_then _ 64 f4 _ λ b lb.
      number_then _ 64 f5 _
        λ c lc. word_then _ f6 _ λ d ld. gives _ (refl, refl, refl, la, lb, lc, ld)
read_quota_event-Gives _ = fails _

read_clients-Gives : (fs : List Bytes) → Gives (ClientsSpelled fs) (read_clients fs)
unfolding read_clients
read_clients-Gives [] = gives [] tt
read_clients-Gives (id ∷ f1 ∷ f2 ∷ rest) = number_then _ 64 f1 _ λ a la. word_then _ f2 _ λ b lb.
    Gives->>= (ClientsSpelled rest) _ (read_clients rest) _ (read_clients-Gives rest)
      λ cs k. gives _ (refl, la, lb, k)
read_clients-Gives (f0 ∷ []) = fails _
read_clients-Gives (f0 ∷ f1 ∷ []) = fails _

read_keys-Gives : (fs : List Bytes) → Gives (KeysSpelled fs) (read_keys fs)
unfolding read_keys
read_keys-Gives [] = gives [] tt
read_keys-Gives (key ∷ f1 ∷ rest) = word_then _ f1 _ λ a la.
    Gives->>= (KeysSpelled rest) _ (read_keys rest) _ (read_keys-Gives rest)
      λ ks k. gives _ (refl, la, k)
read_keys-Gives (f0 ∷ []) = fails _

read_quota_fields-Gives : (fs : List Bytes) → Gives (QuotaInfoSpelled fs) (read_quota_fields fs)
unfolding read_quota_fields
read_quota_fields-Gives (f0 ∷ f1 ∷ f2 ∷ rest) = number_then _ 64 f0 _ λ a la.
    number_then _ 64 f1 _ λ b lb. number_then _ 64 f2 _ λ c lc.
      Gives->>= (ClientsSpelled rest) _ (read_clients rest) _ (read_clients-Gives rest)
        λ cs k. gives _ (la, lb, lc, k)
read_quota_fields-Gives [] = fails _
read_quota_fields-Gives (f0 ∷ []) = fails _
read_quota_fields-Gives (f0 ∷ f1 ∷ []) = fails _

pub read_quota_info-Gives : (fs : List Bytes) → Gives (QuotaInfoSpelled fs) (read_quota_info fs)
unfolding read_quota_info
read_quota_info-Gives fs = elim (Bool-cases (ltb (length fs) 3 || not ((length fs - 3) % 3 == 0))) [
  | inl e ↦ rw e (fails _)
  | inr e ↦ rw e (read_quota_fields-Gives fs)
]

read_scan_fields-Gives : (fs : List Bytes) → Gives (ScanSpelled fs) (read_scan_fields fs)
unfolding read_scan_fields
read_scan_fields-Gives [] = fails _
read_scan_fields-Gives (cursor ∷ rest) =
    Gives->>= (KeysSpelled rest) _ (read_keys rest) _ (read_keys-Gives rest)
      λ ks k. gives _ (refl, k)

pub read_scan-Gives : (fs : List Bytes) → Gives (ScanSpelled fs) (read_scan fs)
unfolding read_scan
read_scan-Gives fs = elim (Bool-cases (ltb (length fs) 1 || not ((length fs - 1) % 2 == 0))) [
  | inl e ↦ rw e (fails _)
  | inr e ↦ rw e (read_scan_fields-Gives fs)
]

parse_all-Spelled : (fs : List Bytes) (vs : List ℕ) → parse_all fs ≡ some vs → NumbersSpelled fs vs
unfolding parse_all
parse_all-Spelled [] [] e = tt
parse_all-Spelled [] (v ∷ vs) e = grind arith
parse_all-Spelled (f ∷ fs) vs e = elim (Option-cases (parse_uint 64 f)) [
  | inl n ↦ absurd (let x : none ≡ some vs = rw (n, cons_value) at e in cc)
  | inr (v, k) ↦ elim (Option-cases (parse_all fs)) [
    | inl n ↦ absurd (let x : none ≡ some vs = rw (k, n, cons_value) at e in cc)
    | inr (ws, l) ↦
        let same : some (v ∷ ws) ≡ some vs = rw (k, l, cons_value) at e in
        let eq : v ∷ ws ≡ vs = cc in
        subst (NumbersSpelled (f ∷ fs)) eq (parse_uint-IsNumber 64 f v k, parse_all-Spelled fs ws l)
  ]
]

pub read_values-Gives : (body : Bytes) → Gives (NumbersSpelled (fields body)) (read_values body)
unfolding read_values
read_values-Gives body = elim (Option-cases (resp_data_to_values body)) [
  | inl e ↦ rw (e, read_values) (fails _)
  | inr (vs, e) ↦
      rw (e, read_values)
        (gives vs (parse_all-Spelled (fields body) vs (sym (resp_data_to_values_lem body) ∙ e)))
]
