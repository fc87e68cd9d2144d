-- ===== src/Response/Tame.antt =====
-- The readers of the `ok` branches fail with one error only, and never read out of range.
use fq_client_go.Common.{
  ℕ, ◌-◌, ◌%◌, ◌≡◌, refl, Bool, true, false, not, ◌||◌, List, [], ◌∷◌, Bytes, codes, arith, length,
  ◌==◌, ltb, Option-cases, Bool-cases, inl, inr,
}
use fq_client_go.Errors.{Result, ok, ◌>>=◌}
use fq_client_go.Text.{bytes_eq}
use fq_client_go.Decimal.{parse_uint}
use fq_client_go.Response.{uint_field, parse_bool_field}
use fq_client_go.Response.Readers.{
  corrupted, size_field, read_hello, read_values, resp_data_to_values, read_rate_limit,
  read_quota_acquire, read_clients, read_quota_fields, read_quota_info, read_keys, read_scan_fields,
  read_scan, read_limit_event, read_quota_event,
}

-- A value, or `ErrCorruptedResponse`.
pub data Tame {ℓ} {A : Type ℓ} (r : Result A) : Type ℓ where
  value : (v : A) → r ≡ ok v → Tame r
  corrupt : r ≡ corrupted → Tame r

Tame-ok {ℓ} : {A : Type ℓ} (v : A) → Tame (ok v)
Tame-ok v = value v refl

Tame-corrupted {ℓ} : {A : Type ℓ} → Tame (corrupted {A = A})
Tame-corrupted = corrupt refl

Tame->>= {ℓ κ} :
    {A : Type ℓ} {B : Type κ} (m : Result A) (f : A → Result B)
    → Tame m
    → ((v : A) → Tame (f v))
    → Tame (m >>= f)
Tame->>= m f (value v e) h = rw e (h v)
Tame->>= m f (corrupt e) h = rw e Tame-corrupted

pub uint_field-Tame : (bits : ℕ) (s : Bytes) → Tame (uint_field bits s)
unfolding uint_field
uint_field-Tame bits s = elim (Option-cases (parse_uint bits s)) [
  | inl e ↦ rw (e, uint_field) Tame-corrupted
  | inr (v, e) ↦ rw (e, uint_field) (Tame-ok v)
]

parse_bool_field-Tame : (s : Bytes) → Tame (parse_bool_field s)
unfolding parse_bool_field
parse_bool_field-Tame s = elim (Bool-cases (bytes_eq s (codes "0"))) [
  | inl e ↦ rw e (Tame-ok false)
  | inr e ↦ rw e (elim (Bool-cases (bytes_eq s (codes "1"))) [
    | inl e' ↦ rw e' (Tame-ok true)
    | inr e' ↦ rw e' Tame-corrupted
  ])
]

size_field-Tame : (s : Bytes) → Tame (size_field s)
unfolding size_field
size_field-Tame s =
    Tame->>= (uint_field 31 s) _ (uint_field-Tame 31 s)
      λ n. elim (Bool-cases (n == 0)) [ inl e ↦ rw e Tame-corrupted | inr e ↦ rw e (Tame-ok n) ]

pub read_values-Tame : (body : Bytes) → Tame (read_values body)
unfolding read_values
read_values-Tame body = elim (Option-cases (resp_data_to_values body)) [
  | inl e ↦ rw (e, read_values) Tame-corrupted
  | inr (v, e) ↦ rw (e, read_values) (Tame-ok v)
]

-- A step that reads a number, and one that reads a flag.
uint_then {ℓ} :
    {B : Type ℓ} (bits : ℕ) (s : Bytes) (f : ℕ → Result B)
    → ((v : ℕ) → Tame (f v))
    → Tame (uint_field bits s >>= f)
uint_then bits s f h = Tame->>= (uint_field bits s) f (uint_field-Tame bits s) h

bool_then {ℓ} :
    {B : Type ℓ} (s : Bytes) (f : Bool → Result B)
    → ((v : Bool) → Tame (f v))
    → Tame (parse_bool_field s >>= f)
bool_then s f h = Tame->>= (parse_bool_field s) f (parse_bool_field-Tame s) h

pub read_rate_limit-Tame : (fs : List Bytes) → Tame (read_rate_limit fs)
unfolding read_rate_limit
read_rate_limit-Tame (f0 ∷ f1 ∷ f2 ∷ f3 ∷ []) =
    bool_then f0 _
      λ a. uint_then 64 f1 _ λ b. uint_then 64 f2 _ λ c. uint_then 32 f3 _ λ d. Tame-ok _
read_rate_limit-Tame _ = Tame-corrupted

pub read_quota_acquire-Tame : (fs : List Bytes) → Tame (read_quota_acquire fs)
unfolding read_quota_acquire
read_quota_acquire-Tame (f0 ∷ f1 ∷ f2 ∷ f3 ∷ f4 ∷ []) = bool_then f0 _ λ a.
    uint_then 64 f1 _
      λ b. uint_then 64 f2 _ λ c. uint_then 64 f3 _ λ d. uint_then 32 f4 _ λ e. Tame-ok _
read_quota_acquire-Tame _ = Tame-corrupted

pub read_limit_event-Tame : (fs : List Bytes) → Tame (read_limit_event fs)
unfolding read_limit_event
read_limit_event-Tame (f0 ∷ f1 ∷ f2 ∷ f3 ∷ []) =
    uint_then 32 f1 _ λ a. uint_then 64 f2 _ λ b. uint_then 32 f3 _ λ c. Tame-ok _
read_limit_event-Tame _ = Tame-corrupted

pub read_quota_event-Tame : (fs : List Bytes) → Tame (read_quota_event fs)
unfolding read_quota_event
read_quota_event-Tame (f0 ∷ f1 ∷ f2 ∷ f3 ∷ f4 ∷ f5 ∷ f6 ∷ []) =
    uint_then 64 f3 _
      λ a. uint_then 64 f4 _ λ b. uint_then 64 f5 _ λ c. uint_then 32 f6 _ λ d. Tame-ok _
read_quota_event-Tame _ = Tame-corrupted

pub read_hello-Tame : (fs : List Bytes) → Tame (read_hello fs)
unfolding read_hello
read_hello-Tame (f0 ∷ f1 ∷ f2 ∷ f3 ∷ []) =
    uint_then 64 f0 _
      λ a. Tame->>= (size_field f1) _ (size_field-Tame f1) λ b. bool_then f2 _ λ c. Tame-ok _
read_hello-Tame _ = Tame-corrupted

-- Full groups of three are read without a panic.
read_clients-Tame : (fs : List Bytes) → length fs % 3 ≡ 0 → Tame (read_clients fs)
unfolding read_clients
read_clients-Tame [] h = Tame-ok []
read_clients-Tame (f0 ∷ f1 ∷ f2 ∷ rest) h = uint_then 64 f1 _ λ a.
    uint_then 32 f2 _
      λ b. Tame->>= (read_clients rest) _ (read_clients-Tame rest (omega arith)) λ cs. Tame-ok _
read_clients-Tame (f0 ∷ []) h = absurd (omega arith)
read_clients-Tame (f0 ∷ f1 ∷ []) h = absurd (omega arith)

read_quota_fields-Tame :
    (fs : List Bytes)
    → (ltb (length fs) 3 || not ((length fs - 3) % 3 == 0)) ≡ false
    → Tame (read_quota_fields fs)
unfolding read_quota_fields
read_quota_fields-Tame (f0 ∷ f1 ∷ f2 ∷ rest) h = uint_then 64 f0 _ λ a. uint_then 64 f1 _ λ b.
    uint_then 64 f2 _
      λ c. Tame->>= (read_clients rest) _ (read_clients-Tame rest (ground arith)) λ cs. Tame-ok _
read_quota_fields-Tame [] h = absurd (ground arith)
read_quota_fields-Tame (f0 ∷ []) h = absurd (ground arith)
read_quota_fields-Tame (f0 ∷ f1 ∷ []) h = absurd (ground arith)

pub read_quota_info-Tame : (fs : List Bytes) → Tame (read_quota_info fs)
unfolding read_quota_info
read_quota_info-Tame fs = elim (Bool-cases (ltb (length fs) 3 || not ((length fs - 3) % 3 == 0))) [
  | inl e ↦ rw e Tame-corrupted
  | inr e ↦ rw e (read_quota_fields-Tame fs e)
]

read_keys-Tame : (fs : List Bytes) → length fs % 2 ≡ 0 → Tame (read_keys fs)
unfolding read_keys
read_keys-Tame [] h = Tame-ok []
read_keys-Tame (f0 ∷ f1 ∷ rest) h =
    uint_then 32 f1 _
      λ a. Tame->>= (read_keys rest) _ (read_keys-Tame rest (omega arith)) λ ks. Tame-ok _
read_keys-Tame (f0 ∷ []) h = absurd (omega arith)

read_scan_fields-Tame :
    (fs : List Bytes)
    → (ltb (length fs) 1 || not ((length fs - 1) % 2 == 0)) ≡ false
    → Tame (read_scan_fields fs)
unfolding read_scan_fields
read_scan_fields-Tame (f0 ∷ rest) h =
    Tame->>= (read_keys rest) _ (read_keys-Tame rest (ground arith)) λ ks. Tame-ok _
read_scan_fields-Tame [] h = absurd (ground arith)

pub read_scan-Tame : (fs : List Bytes) → Tame (read_scan fs)
unfolding read_scan
read_scan-Tame fs = elim (Bool-cases (ltb (length fs) 1 || not ((length fs - 1) % 2 == 0))) [
  | inl e ↦ rw e Tame-corrupted
  | inr e ↦ rw e (read_scan_fields-Tame fs e)
]
