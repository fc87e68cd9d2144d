-- ===== src/Response/RoundTrip.antt =====
-- Each parser reads back what the server writes.
use fq_client_go.Common.{ℕ, ◌<◌, ◌^◌, ◌%◌, ◌≡◌, ◌≢◌, refl, Bool, true, false, arith}
use fq_client_go.Errors.{ok}
use fq_client_go.Text.{bytes_eq}
use fq_client_go.Decimal.{format_uint}
use fq_client_go.Types.{
  RateLimitResult, LimitEvent, QuotaAcquireResult, QuotaEvent, zero_rate_limit_result,
  zero_limit_event, zero_quota_acquire_result, zero_quota_event,
}
use fq_client_go.Response.{parse_bool_field}
use fq_client_go.Response.Readers.{
  HelloInfo, zero_hello_info, size_field, read_hello, parse_hello_response, read_rate_limit,
  parse_rate_limit_response, read_quota_acquire, parse_quota_acquire_response, read_limit_event,
  parse_limit_event_response, read_quota_event, parse_quota_event_response,
}
use fq_client_go.Response.Frame.{uint_field-format_uint, success_of}
use fq_client_go.Response.Wire.{
  ok_wire, bool_text, number-IsField, bool_text-IsField, parse_ok_wire, rate_limit_fields,
  quota_acquire_fields, limit_event_fields, quota_event_fields, hello_fields, RateLimitFits,
  QuotaAcquireFits, LimitEventFits, QuotaEventFits, HelloFits,
}

parse_bool_field-bool_text : (b : Bool) → parse_bool_field (bool_text b) ≡ ok b
unfolding parse_bool_field bytes_eq
parse_bool_field-bool_text true = refl
parse_bool_field-bool_text false = refl

-- The conversion `uint32(v)` keeps a value that fits.
pub mod_fits : (n : ℕ) → n < 2 ^ 32 → n % 2 ^ 32 ≡ n
mod_fits n h = omega arith

read_rate_limit-fields :
    (r : RateLimitResult) → RateLimitFits r → read_rate_limit (rate_limit_fields r) ≡ ok r
unfolding read_rate_limit
read_rate_limit-fields r h = rw (
  parse_bool_field-bool_text r.allowed,
  uint_field-format_uint 64 r.current h.current,
  uint_field-format_uint 64 r.remaining h.remaining,
  uint_field-format_uint 32 r.reset_after h.reset_after,
  mod_fits r.reset_after h.reset_after,
)

-- An `ok` frame with the four fields of a rate limit result whose numbers fit their words is read as
-- that result.
pub parse_rate_limit_response-wire :
    (r : RateLimitResult)
    → RateLimitFits r
    → parse_rate_limit_response (ok_wire (rate_limit_fields r)) ≡ ok (success_of r)
unfolding parse_rate_limit_response
parse_rate_limit_response-wire r h =
    parse_ok_wire zero_rate_limit_result read_rate_limit (rate_limit_fields r) r (cc)
      (
        bool_text-IsField r.allowed,
        (
          number-IsField r.current,
          (number-IsField r.remaining, (number-IsField r.reset_after, tt)),
        ),
      )
      (read_rate_limit-fields r h)

read_quota_acquire-fields :
    (r : QuotaAcquireResult)
    → QuotaAcquireFits r
    → read_quota_acquire (quota_acquire_fields r) ≡ ok r
unfolding read_quota_acquire
read_quota_acquire-fields r h = rw (
  parse_bool_field-bool_text r.acquired,
  uint_field-format_uint 64 r.allocated h.allocated,
  uint_field-format_uint 64 r.used h.used,
  uint_field-format_uint 64 r.remaining h.remaining,
  uint_field-format_uint 32 r.expires_after h.expires_after,
  mod_fits r.expires_after h.expires_after,
)

-- An `ok` frame with the five fields of a quota acquisition whose numbers fit their words is read as
-- that result.
pub parse_quota_acquire_response-wire :
    (r : QuotaAcquireResult)
    → QuotaAcquireFits r
    → parse_quota_acquire_response (ok_wire (quota_acquire_fields r)) ≡ ok (success_of r)
unfolding parse_quota_acquire_response
parse_quota_acquire_response-wire r h =
    parse_ok_wire zero_quota_acquire_result read_quota_acquire (quota_acquire_fields r) r (cc)
      (
        bool_text-IsField r.acquired,
        (
          number-IsField r.allocated,
          (
            number-IsField r.used,
            (number-IsField r.remaining, (number-IsField r.expires_after, tt)),
          ),
        ),
      )
      (read_quota_acquire-fields r h)

read_limit_event-fields :
    (e : LimitEvent) → LimitEventFits e → read_limit_event (limit_event_fields e) ≡ ok e
unfolding read_limit_event
read_limit_event-fields e h = rw (
  uint_field-format_uint 32 e.window h.window,
  uint_field-format_uint 64 e.current h.current,
  uint_field-format_uint 32 e.reset_after h.reset_after,
  mod_fits e.window h.window,
  mod_fits e.reset_after h.reset_after,
)

-- An `ok` frame with the four fields of a limit event, whose key holds no `;` and whose numbers fit
-- their words, is read as that event.
pub parse_limit_event_response-wire :
    (e : LimitEvent)
    → LimitEventFits e
    → parse_limit_event_response (ok_wire (limit_event_fields e)) ≡ ok (success_of e)
unfolding parse_limit_event_response
parse_limit_event_response-wire e h =
    parse_ok_wire zero_limit_event read_limit_event (limit_event_fields e) e (cc)
      (
        h.key,
        (number-IsField e.window, (number-IsField e.current, (number-IsField e.reset_after, tt))),
      )
      (read_limit_event-fields e h)

read_quota_event-fields :
    (e : QuotaEvent) → QuotaEventFits e → read_quota_event (quota_event_fields e) ≡ ok e
unfolding read_quota_event
read_quota_event-fields e h = rw (
  uint_field-format_uint 64 e.amount h.amount,
  uint_field-format_uint 64 e.used h.used,
  uint_field-format_uint 64 e.remaining h.remaining,
  uint_field-format_uint 32 e.expires_at h.expires_at,
  mod_fits e.expires_at h.expires_at,
)

-- An `ok` frame with the seven fields of a quota event, whose texts hold no `;` and whose numbers fit
-- their words, is read as that event.
pub parse_quota_event_response-wire :
    (e : QuotaEvent)
    → QuotaEventFits e
    → parse_quota_event_response (ok_wire (quota_event_fields e)) ≡ ok (success_of e)
unfolding parse_quota_event_response
parse_quota_event_response-wire e h =
    parse_ok_wire zero_quota_event read_quota_event (quota_event_fields e) e (cc)
      (
        h.event,
        (
          h.name,
          (
            h.client_id,
            (
              number-IsField e.amount,
              (
                number-IsField e.used,
                (number-IsField e.remaining, (number-IsField e.expires_at, tt)),
              ),
            ),
          ),
        ),
      )
      (read_quota_event-fields e h)

size_field-format_uint : (n : ℕ) → n < 2 ^ 31 → n ≢ 0 → size_field (format_uint n) ≡ ok n
unfolding size_field
size_field-format_uint n h p = rw (uint_field-format_uint 31 n h) (ground arith)

read_hello-fields : (h : HelloInfo) → HelloFits h → read_hello (hello_fields h) ≡ ok h
unfolding read_hello
read_hello-fields h f = rw (
  uint_field-format_uint 64 h.version f.version,
  size_field-format_uint h.max_message_size f.max_message_size f.positive,
  parse_bool_field-bool_text h.auth_required,
)

-- An `ok` frame with the four fields of an answer to the handshake, whose role holds no `;` and whose
-- numbers fit and whose message size is positive, is read as that answer.
pub parse_hello_response-wire :
    (h : HelloInfo)
    → HelloFits h
    → parse_hello_response (ok_wire (hello_fields h)) ≡ ok (success_of h)
unfolding parse_hello_response
parse_hello_response-wire h f =
    parse_ok_wire zero_hello_info read_hello (hello_fields h) h (cc)
      (
        number-IsField h.version,
        (number-IsField h.max_message_size, (bool_text-IsField h.auth_required, (f.role, tt))),
      )
      (read_hello-fields h f)
