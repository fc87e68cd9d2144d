-- ===== src/Response/Replies.antt =====
-- The answers of the server, all kinds in one type, and the parser of each kind.
use fq_client_go.Common.{ℕ, ◌<◌, ◌^◌, ◌≡◌, ◌≢◌, refl, ap, ◌∙◌, some, List, [], ◌∷◌, map, Bytes, All}
use fq_client_go.Errors.{ok}
use fq_client_go.Text.{join}
use fq_client_go.Text.Parts.{split-join}
use fq_client_go.Decimal.{format_uint}
use fq_client_go.Decimal.RoundTrip.{parse_uint-format_uint}
use fq_client_go.Types.{
  RateLimitResult, LimitEvent, QuotaAcquireResult, QuotaInfo, ScanResult, QuotaEvent,
}
use fq_client_go.Response.{multi_data_delimiter, uint_field}
use fq_client_go.Response.Frame.{success_of, uint_field-format_uint, parse_frame-ok}
use fq_client_go.Response.Readers.{
  HelloInfo, read_values, resp_data_to_values, parse_hello_response, parse_response,
  parse_multi_response, parse_rate_limit_response, parse_quota_acquire_response,
  parse_quota_info_response, parse_scan_response, parse_limit_event_response,
  parse_quota_event_response,
}
use fq_client_go.Response.Values.{parse_all, cons_value, resp_data_to_values_lem}
use fq_client_go.Response.Wire.{
  ok_wire, IsField, number-IsField, hello_fields, rate_limit_fields, quota_acquire_fields,
  quota_info_fields, scan_fields, limit_event_fields, quota_event_fields, HelloFits, RateLimitFits,
  QuotaAcquireFits, QuotaInfoFits, ScanFits, LimitEventFits, QuotaEventFits,
}
use fq_client_go.Response.RoundTrip.{
  parse_hello_response-wire, parse_rate_limit_response-wire, parse_quota_acquire_response-wire,
  parse_limit_event_response-wire, parse_quota_event_response-wire,
}
use fq_client_go.Response.Lists.{parse_quota_info_response-wire, parse_scan_response-wire}

pub data Reply : Type 0 where
  hello_info : HelloInfo → Reply
  number : ℕ → Reply
  numbers : List ℕ → Reply
  rate_limit : RateLimitResult → Reply
  quota_acquire : QuotaAcquireResult → Reply
  quota_info : QuotaInfo → Reply
  scan_page : ScanResult → Reply
  limit_event : LimitEvent → Reply
  quota_event : QuotaEvent → Reply

-- The fields as the server writes them.
abbrev pub reply_fields : Reply → List Bytes
reply_fields (hello_info h) = hello_fields h
reply_fields (number n) = format_uint n ∷ []
reply_fields (numbers ns) = map format_uint ns
reply_fields (rate_limit r) = rate_limit_fields r
reply_fields (quota_acquire r) = quota_acquire_fields r
reply_fields (quota_info q) = quota_info_fields q
reply_fields (scan_page r) = scan_fields r
reply_fields (limit_event e) = limit_event_fields e
reply_fields (quota_event e) = quota_event_fields e

-- The numbers fit their machine words, and the texts hold no separator.
abbrev pub ReplyFits : Reply → Type 0
ReplyFits (hello_info h) = HelloFits h
ReplyFits (number n) = n < 2 ^ 64
ReplyFits (numbers ns) = (ns ≢ []) × All (λ n. n < 2 ^ 64) ns
ReplyFits (rate_limit r) = RateLimitFits r
ReplyFits (quota_acquire r) = QuotaAcquireFits r
ReplyFits (quota_info q) = QuotaInfoFits q
ReplyFits (scan_page r) = ScanFits r
ReplyFits (limit_event e) = LimitEventFits e
ReplyFits (quota_event e) = QuotaEventFits e

-- The parser of its kind takes the frame for a success with this answer.
abbrev pub ReadsAs : Bytes → Reply → Type 0
ReadsAs wire (hello_info h) = parse_hello_response wire ≡ ok (success_of h)
ReadsAs wire (number n) = parse_response wire ≡ ok (success_of n)
ReadsAs wire (numbers ns) = parse_multi_response wire ≡ ok (success_of ns)
ReadsAs wire (rate_limit r) = parse_rate_limit_response wire ≡ ok (success_of r)
ReadsAs wire (quota_acquire r) = parse_quota_acquire_response wire ≡ ok (success_of r)
ReadsAs wire (quota_info q) = parse_quota_info_response wire ≡ ok (success_of q)
ReadsAs wire (scan_page r) = parse_scan_response wire ≡ ok (success_of r)
ReadsAs wire (limit_event e) = parse_limit_event_response wire ≡ ok (success_of e)
ReadsAs wire (quota_event e) = parse_quota_event_response wire ≡ ok (success_of e)

pub parse_response-number :
    (n : ℕ) → n < 2 ^ 64 → parse_response (ok_wire (format_uint n ∷ [])) ≡ ok (success_of n)
unfolding parse_response ok_wire join
parse_response-number n l =
    rw (parse_frame-ok 0 (uint_field 64) (format_uint n), uint_field-format_uint 64 n l) refl

parse_all-format_uint :
    (ns : List ℕ) → All (λ n. n < 2 ^ 64) ns → parse_all (map format_uint ns) ≡ some ns
unfolding parse_all cons_value
parse_all-format_uint [] h = refl
parse_all-format_uint (n ∷ ns) (l, h) =
    rw (parse_uint-format_uint 64 n l, parse_all-format_uint ns h) refl

numbers-IsField : (ns : List ℕ) → All IsField (map format_uint ns)
numbers-IsField [] = tt
numbers-IsField (n ∷ ns) = (number-IsField n, numbers-IsField ns)

read_values-join :
    (ns : List ℕ)
    → ns ≢ []
    → All (λ n. n < 2 ^ 64) ns
    → read_values (join (map format_uint ns) multi_data_delimiter) ≡ ok ns
unfolding read_values
read_values-join ns n h =
    let body = join (map format_uint ns) multi_data_delimiter in
    let parsed : resp_data_to_values body ≡ some ns =
      resp_data_to_values_lem body
      ∙ ap parse_all (
          split-join multi_data_delimiter (map format_uint ns) (map-ne-nil ns n)
            (numbers-IsField ns))
      ∙ parse_all-format_uint ns h in
    rw (parsed, read_values) refl
  where
    map-ne-nil : (ns : List ℕ) → ns ≢ [] → map format_uint ns ≢ []
    map-ne-nil [] n = absurd (n refl)
    map-ne-nil (x ∷ ns) n = λ e. cc

parse_multi_response-wire :
    (ns : List ℕ)
    → ns ≢ []
    → All (λ n. n < 2 ^ 64) ns
    → parse_multi_response (ok_wire (map format_uint ns)) ≡ ok (success_of ns)
unfolding parse_multi_response ok_wire
parse_multi_response-wire ns n h =
    rw
      (
        parse_frame-ok [] read_values (join (map format_uint ns) multi_data_delimiter),
        read_values-join ns n h,
      )
      refl

-- Each of the nine parsers reads back what the server writes: an `ok` frame with the fields of an
-- answer whose numbers fit their words and whose texts hold no `;` is read as that answer. Of several
-- numbers there is at least one, and the message size of a handshake is positive.
pub replies-ReadsAs : (r : Reply) → ReplyFits r → ReadsAs (ok_wire (reply_fields r)) r
replies-ReadsAs (hello_info h) f = parse_hello_response-wire h f
replies-ReadsAs (number n) f = parse_response-number n f
replies-ReadsAs (numbers ns) (n, f) = parse_multi_response-wire ns n f
replies-ReadsAs (rate_limit r) f = parse_rate_limit_response-wire r f
replies-ReadsAs (quota_acquire r) f = parse_quota_acquire_response-wire r f
replies-ReadsAs (quota_info q) f = parse_quota_info_response-wire q f
replies-ReadsAs (scan_page r) f = parse_scan_response-wire r f
replies-ReadsAs (limit_event e) f = parse_limit_event_response-wire e f
replies-ReadsAs (quota_event e) f = parse_quota_event_response-wire e f
