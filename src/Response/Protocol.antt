-- ===== src/Response/Protocol.antt =====
-- response.go: the error codes, and reading an error from the data of an `err` frame.
use fq_client_go.Common.{
  ℕ, zero, suc, ◌-◌, ◌≤◌, ◌≡◌, ◌≢◌, inl, inr, refl, ap, ◌∙◌, Option, none, some, [], ◌∷◌, ◌++◌,
  Bytes, length, replicate, Lacks, All, All-append, arith, ltb, Option-cases, Bool-cases, take,
  drop,
}
use fq_client_go.Errors.{sentinel, protocol, corrupted_response, ok}
use fq_client_go.Text.{index_byte}
use fq_client_go.Text.Cut.{split_n2-append, split_n2-Lacks, index_byte-some, index_byte-none}
use fq_client_go.Decimal.{format_uint, parse_uint, scan_digits, digits}
use fq_client_go.Decimal.RoundTrip.{
  IsDigit, IsDigit-Lacks, format_uint-All-IsDigit, format_uint-ne-nil, parse_uint-scan,
  parse_uint-format_uint,
}
use fq_client_go.Response.{resp_delimiter, pad4, parse_error, checked_code}
use fq_client_go.Response.Frame.{parse_frame-error, failure_of}
use fq_client_go.Response.Readers.{parse_response}
use fq_client_go.Response.Wire.{error_wire}

pub data ErrorCode : Type 0 where
  invalid_symbol invalid_command invalid_arguments invalid_arguments_count : ErrorCode
  message_size_exceeds_maximum : ErrorCode
  handshake_required unsupported_protocol_version protocol_version_already_negotiated : ErrorCode
  key_cannot_be_empty key_length_exceeds_maximum batch_is_not_number : ErrorCode
  invalid_batch_size limit_is_not_number invalid_limit invalid_rate_limit_algorithm : ErrorCode
  invalid_scan_count invalid_scan_cursor : ErrorCode
  not_authenticated permission_denied authentication_failed : ErrorCode
  too_many_authentication_failures : ErrorCode
  quota_not_found quota_limit_mismatch quota_already_acquired_different_size : ErrorCode
  quota_is_not_empty quota_limit_below_used_amount quota_ownership_mismatch : ErrorCode
  quota_policy_mismatch : ErrorCode
  scan_index_disabled inspect_not_available inspect_report_too_large : ErrorCode
  max_message_size_too_small_for_chunk : ErrorCode
  internal internal_configuration : ErrorCode

unfoldable pub code_number : ErrorCode → ℕ
code_number invalid_symbol = 1000
code_number invalid_command = 1001
code_number invalid_arguments = 1002
code_number invalid_arguments_count = 1003
code_number message_size_exceeds_maximum = 1004
code_number handshake_required = 1010
code_number unsupported_protocol_version = 1011
code_number protocol_version_already_negotiated = 1012
code_number key_cannot_be_empty = 2000
code_number key_length_exceeds_maximum = 2001
code_number batch_is_not_number = 2002
code_number invalid_batch_size = 2003
code_number limit_is_not_number = 2004
code_number invalid_limit = 2005
code_number invalid_rate_limit_algorithm = 2006
code_number invalid_scan_count = 2007
code_number invalid_scan_cursor = 2008
code_number not_authenticated = 3000
code_number permission_denied = 3001
code_number authentication_failed = 3002
code_number too_many_authentication_failures = 3003
code_number quota_not_found = 4000
code_number quota_limit_mismatch = 4001
code_number quota_already_acquired_different_size = 4002
code_number quota_is_not_empty = 4003
code_number quota_limit_below_used_amount = 4004
code_number quota_ownership_mismatch = 4005
code_number quota_policy_mismatch = 4006
code_number scan_index_disabled = 5000
code_number inspect_not_available = 5001
code_number inspect_report_too_large = 5002
code_number max_message_size_too_small_for_chunk = 5003
code_number internal = 9000
code_number internal_configuration = 9001

-- Leading zeros do not change a number.
scan_digits-zeros : (k : ℕ) (s : Bytes) → scan_digits 0 (replicate k b'0' ++ s) ≡ scan_digits 0 s
unfolding scan_digits
scan_digits-zeros zero s = refl
scan_digits-zeros (suc k) s = scan_digits-zeros k s

zeros-All-IsDigit : (k : ℕ) → All IsDigit (replicate k b'0')
zeros-All-IsDigit zero = tt
zeros-All-IsDigit (suc k) = (omega arith, zeros-All-IsDigit k)

pad4-ne-nil : (s : Bytes) → s ≢ [] → pad4 s ≢ []
pad4-ne-nil s h = append-ne-nil (replicate (4 - length s) b'0') s h
  where
    append-ne-nil : (p q : Bytes) → q ≢ [] → p ++ q ≢ []
    append-ne-nil [] q n = n
    append-ne-nil (c ∷ p) q n = λ e. cc

parse_uint-pad4 : (bits : ℕ) (s : Bytes) → s ≢ [] → parse_uint bits (pad4 s) ≡ parse_uint bits s
parse_uint-pad4 bits s h = rw (
  parse_uint-scan bits (pad4 s) (pad4-ne-nil s h),
  parse_uint-scan bits s h,
  scan_digits-zeros (4 - length s) s,
)

pad4-Lacks : (n : ℕ) → Lacks resp_delimiter (pad4 (format_uint n))
pad4-Lacks n =
    IsDigit-Lacks resp_delimiter (pad4 (format_uint n)) (λ d. omega arith)
      (All-append IsDigit (replicate (4 - length (format_uint n)) b'0') (format_uint n)
        (zeros-All-IsDigit (4 - length (format_uint n))) (format_uint-All-IsDigit n))

-- The code in four digits, a `|` and any text are read as the error that they stand for.
pub parse_error-wire :
    (code : ℕ) (text : Bytes)
    → code ≤ 9999
    → parse_error (pad4 (format_uint code) ++ resp_delimiter ∷ text) ≡ protocol code text
unfolding parse_error
parse_error-wire code text h =
    rw
      (
        split_n2-append resp_delimiter (pad4 (format_uint code)) text (pad4-Lacks code),
        parse_uint-pad4 16 (format_uint code) (format_uint-ne-nil code),
        parse_uint-format_uint 16 code (omega arith),
      )
      (ground arith)

-- An `err` frame of a code up to 9999 and any text, delimiters included, is read as a failure with
-- that code and text.
pub parse_response-error_wire :
    (code : ℕ) (text : Bytes)
    → code ≤ 9999
    → parse_response (error_wire code text) ≡ ok (failure_of 0 (protocol code text))
unfolding parse_response error_wire
parse_response-error_wire code text h =
    parse_frame-error 0 _ _ ∙ ap (λ e. ok (failure_of 0 e)) (parse_error-wire code text h)

code_number-le : (c : ErrorCode) → code_number c ≤ 9999
unfolding code_number
code_number-le invalid_symbol = omega arith
code_number-le _ = omega arith

-- Each error code that the client names is read back from its `err` frame, with any text.
pub code_number-read :
    (c : ErrorCode) (text : Bytes)
    → parse_response (error_wire (code_number c) text)
      ≡ ok (failure_of 0 (protocol (code_number c) text))
code_number-read c text = parse_response-error_wire (code_number c) text (code_number-le c)

-- What `parseError` accepts: a code of at most 9999 in front of the first `|`.
pub data ErrorRead (body : Bytes) : Type 0 where
  read_code :
      (digits : Bytes) (code : ℕ) (text : Bytes)
      → body ≡ digits ++ resp_delimiter ∷ text
      → Lacks resp_delimiter digits
      → parse_uint 16 digits ≡ some code
      → code ≤ 9999
      → parse_error body ≡ protocol code text
      → ErrorRead body
  unreadable : parse_error body ≡ sentinel corrupted_response → ErrorRead body

checked_code_read :
    (body digits text : Bytes)
    → body ≡ digits ++ resp_delimiter ∷ text
    → Lacks resp_delimiter digits
    → (o : Option ℕ) → parse_uint 16 digits ≡ o
    → parse_error body ≡ checked_code o text
    → ErrorRead body
unfolding checked_code
checked_code_read body digits text e l none p q = unreadable q
checked_code_read body digits text e l (some code) p q = elim (Bool-cases (ltb 9999 code)) [
  | inl big ↦ unreadable (rw big at q)
  | inr small ↦ read_code digits code text e l p (ground arith) (rw small at q)
]

-- `parseError` returns `ErrCorruptedResponse`, or the protocol error of a code of at most 9999 that
-- stands in front of the first `|`, with all that follows as its text.
pub parse_error-ErrorRead : (body : Bytes) → ErrorRead body
unfolding parse_error
parse_error-ErrorRead body = elim (Option-cases (index_byte body resp_delimiter)) [
  | inl e ↦ unreadable (unreadable_lem (index_byte-none resp_delimiter body e))
  | inr (i, e) ↦
      let (cut, lacks) = index_byte-some resp_delimiter body i e in
      checked_code_read body (take i body) (drop (suc i) body) cut lacks
        (parse_uint 16 (take i body)) refl (read_lem (take i body) (drop (suc i) body) cut lacks)
]
  where
    unreadable_lem : Lacks resp_delimiter body → parse_error body ≡ sentinel corrupted_response
    unreadable_lem l = rw (parse_error, split_n2-Lacks resp_delimiter body l)

    read_lem :
        (p r : Bytes)
        → body ≡ p ++ resp_delimiter ∷ r
        → Lacks resp_delimiter p
        → parse_error body ≡ checked_code (parse_uint 16 p) r
    read_lem p r e l = rw (e, split_n2-append resp_delimiter p r l)
