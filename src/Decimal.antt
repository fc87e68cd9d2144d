-- ===== src/Decimal.antt =====
-- Go's `strconv.FormatUint(n, 10)` and `strconv.ParseUint(s, 10, bits)`, as far as the client uses
-- them: the kind of a parse error is never looked at.
pub mod RoundTrip
use fq_client_go.Common.{
  ℕ, zero, suc, ◌+◌, ◌-◌, ◌*◌, ◌/◌, ◌%◌, ◌^◌, Option, none, some, [], ◌∷◌, ◌++◌, Bytes, ltb, ◌||◌,
  if◌then◌else◌,
}

-- The digits of a number, the last by its remainder. The fuel bounds the number of digits.
unfoldable pub digits : ℕ → ℕ → Bytes
digits zero n = []
digits (suc fuel) n =
    let front = digits fuel (n / 10) in
    if ltb n 10 then (b'0' + n) ∷ [] else front ++ (b'0' + n % 10) ∷ []

-- A number has fewer digits than its successor counts.
unfoldable pub format_uint : ℕ → Bytes
unfolding digits
format_uint n = digits (suc n) n

-- The number that the digits spell behind `n`, or `none` at another byte.
unfoldable pub scan_digits : ℕ → Bytes → Option ℕ
scan_digits n [] = some n
scan_digits n (c ∷ s) =
    let rest = scan_digits (n * 10 + (c - b'0')) s in
    if ltb c b'0' || ltb b'9' c then none else rest

-- A value that does not fit the width is refused.
unfoldable pub fit : ℕ → Option ℕ → Option ℕ
fit bits none = none
fit bits (some n) = if ltb n (2 ^ bits) then some n else none

-- Base 10: no sign, no underscore and no prefix is accepted; the empty text is refused.
unfoldable pub parse_uint : ℕ → Bytes → Option ℕ
unfolding scan_digits fit
parse_uint bits [] = none
parse_uint bits (c ∷ s) = fit bits (scan_digits 0 (c ∷ s))
