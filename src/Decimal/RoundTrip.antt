-- ===== src/Decimal/RoundTrip.antt =====
-- Printing and reading a decimal number.
use fq_client_go.Common.{
  ℕ, zero, suc, ◌+◌, ◌-◌, ◌*◌, ◌/◌, ◌%◌, ◌^◌, ◌≤◌, ◌<◌, some, [], ◌∷◌, ◌++◌, Bytes, ltb, ◌≡◌, ◌≢◌,
  refl, arith, Lacks, All, All-append, Bool-cases, inl, inr, ap, ◌∙◌, lt→ltb,
}
use fq_client_go.Decimal.{digits, format_uint, scan_digits, fit, parse_uint}

abbrev pub IsDigit : ℕ → Type 0
IsDigit c = (b'0' ≤ c) × (c ≤ b'9')

digits-All-IsDigit : (f n : ℕ) → All IsDigit (digits f n)
unfolding digits
digits-All-IsDigit zero n = tt
digits-All-IsDigit (suc f) n = elim (Bool-cases (ltb n 10)) [
  | inl e ↦ rw e (ground arith)
  | inr e ↦ rw e (
      All-append IsDigit (digits f (n / 10)) ((b'0' + n % 10) ∷ []) (digits-All-IsDigit f (n / 10))
        (omega arith))
]

pub format_uint-All-IsDigit : (n : ℕ) → All IsDigit (format_uint n)
unfolding format_uint
format_uint-All-IsDigit n = digits-All-IsDigit (suc n) n

-- A printed number holds no byte that is not a digit.
pub IsDigit-Lacks : (b : ℕ) (s : Bytes) → ¬ IsDigit b → All IsDigit s → Lacks b s
IsDigit-Lacks b [] n h = tt
IsDigit-Lacks b (c ∷ s) n h = (λ e. n (rw e at h.0), IsDigit-Lacks b s n h.1)

scan_digits-append :
    (s : Bytes) (a m c : ℕ)
    → scan_digits a s ≡ some m
    → IsDigit c
    → scan_digits a (s ++ c ∷ []) ≡ some (m * 10 + (c - b'0'))
unfolding scan_digits
scan_digits-append [] a m c e h = ground arith
scan_digits-append (d ∷ s) a m c e h =
    ground (arith, scan_digits-append s (a * 10 + (d - b'0')) m c)

append_one-ne-nil : (s : Bytes) (c : ℕ) → s ++ c ∷ [] ≢ []
append_one-ne-nil [] c = λ e. cc
append_one-ne-nil (d ∷ s) c = λ e. cc

scan_digits-digits : (f n : ℕ) → n < f → scan_digits 0 (digits f n) ≡ some n
unfolding digits
scan_digits-digits zero n h = absurd (omega arith)
scan_digits-digits (suc f) n h = elim (Bool-cases (ltb n 10)) [
  | inl e ↦ rw e (unfold scan_digits in ground arith)
  | inr e ↦ rw e (
      scan_digits-append (digits f (n / 10)) 0 (n / 10) (b'0' + n % 10)
        (scan_digits-digits f (n / 10) (ground arith)) (omega arith)
      ∙ ap some (omega arith))
]

digits-ne-nil : (f n : ℕ) → n < f → digits f n ≢ []
unfolding digits
digits-ne-nil zero n h = absurd (omega arith)
digits-ne-nil (suc f) n h = elim (Bool-cases (ltb n 10)) [
  | inl e ↦ rw e (λ d. cc)
  | inr e ↦ rw e (append_one-ne-nil (digits f (n / 10)) (b'0' + n % 10))
]

pub format_uint-ne-nil : (n : ℕ) → format_uint n ≢ []
unfolding format_uint
format_uint-ne-nil n = digits-ne-nil (suc n) n (omega arith)

pub parse_uint-scan :
    (bits : ℕ) (s : Bytes) → s ≢ [] → parse_uint bits s ≡ fit bits (scan_digits 0 s)
unfolding parse_uint
parse_uint-scan bits [] h = absurd (h refl)
parse_uint-scan bits (c ∷ s) h = refl

fit-lt : (bits n : ℕ) → n < 2 ^ bits → fit bits (some n) ≡ some n
unfolding fit
fit-lt bits n h = rw (lt→ltb n (2 ^ bits) h)

-- Every number of the width is read back from its print.
pub parse_uint-format_uint : (bits n : ℕ) → n < 2 ^ bits → parse_uint bits (format_uint n) ≡ some n
unfolding format_uint
parse_uint-format_uint bits n h =
    rw (parse_uint-scan bits _ (format_uint-ne-nil n), scan_digits-digits (suc n) n (omega arith))
      (fit-lt bits n h)

-- The print is injective.
pub format_uint-injective : (m n : ℕ) → format_uint m ≡ format_uint n → m ≡ n
unfolding format_uint
format_uint-injective m n e =
    cc (scan_digits-digits (suc m) m (omega arith), scan_digits-digits (suc n) n (omega arith))
