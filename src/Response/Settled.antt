-- ===== src/Response/Settled.antt =====
-- What a parser can return, whatever the server sends.
use fq_client_go.Common.{Bytes, ◌≡◌, ◌∙◌, [], ap}
use fq_client_go.Errors.{
  Error, Result, ok, err, ◌>>=◌, sentinel, corrupted_response, unknown_resp_status,
}
use fq_client_go.Types.{
  zero_rate_limit_result, zero_limit_event, zero_quota_acquire_result, zero_quota_info,
  zero_scan_result, zero_quota_event,
}
use fq_client_go.Response.{Response, parse_frame, parse_error}
use fq_client_go.Response.Frame.{
  success_of, failure_of, ok_frame, error_frame, other_frame, no_delimiter, frame_kind,
  parse_frame-ok, parse_frame-error, parse_frame-other, parse_frame-no_delimiter,
}
use fq_client_go.Response.Readers.{
  fields, zero_hello_info, parse_hello_response, parse_response, parse_multi_response,
  parse_rate_limit_response, parse_quota_acquire_response, parse_quota_info_response,
  parse_scan_response, parse_limit_event_response, parse_quota_event_response,
}
use fq_client_go.Response.Tame.{
  Tame, value, corrupt, uint_field-Tame, read_values-Tame, read_rate_limit-Tame,
  read_quota_acquire-Tame, read_quota_info-Tame, read_scan-Tame, read_limit_event-Tame,
  read_quota_event-Tame, read_hello-Tame,
}

-- A response that is a success with no error or a failure with one, or one of the two parse errors.
pub data Settled {ℓ} {A : Type ℓ} (empty : A) (r : Result (Response A)) : Type ℓ where
  succeeded : (v : A) → r ≡ ok (success_of v) → Settled empty r
  refused : (e : Error) → r ≡ ok (failure_of empty e) → Settled empty r
  corrupted_frame : r ≡ err (sentinel corrupted_response) → Settled empty r
  unknown_frame : r ≡ err (sentinel unknown_resp_status) → Settled empty r

module _ {ℓ} {A : Type ℓ} (empty : A) (read : Bytes → Result A)
    (tame : (b : Bytes) → Tame (read b)) where
  read_Settled :
      (resp body : Bytes)
      → parse_frame empty read resp ≡ (read body >>= λ v. ok (success_of v))
      → Tame (read body)
      → Settled empty (parse_frame empty read resp)
  read_Settled resp body h (value v e) = succeeded v (rw e at h)
  read_Settled resp body h (corrupt e) = corrupted_frame (rw e at h)

  pub parse_frame-Settled : (resp : Bytes) → Settled empty (parse_frame empty read resp)
  parse_frame-Settled resp = elim (frame_kind resp) [
    | ok_frame body e ↦
        read_Settled resp body (ap (parse_frame empty read) e ∙ parse_frame-ok empty read body)
          (tame body)
    | error_frame body e ↦
        refused (parse_error body)
          (ap (parse_frame empty read) e ∙ parse_frame-error empty read body)
    | other_frame status body l n m e ↦
        unknown_frame
          (ap (parse_frame empty read) e ∙ parse_frame-other empty read status body l n m)
    | no_delimiter l ↦ corrupted_frame (parse_frame-no_delimiter empty read resp l)
  ]

-- The parsers of one response each.
pub record AllSettled (resp : Bytes) : Type 0 where
  pub hello : Settled zero_hello_info (parse_hello_response resp)
  pub value : Settled 0 (parse_response resp)
  pub values : Settled [] (parse_multi_response resp)
  pub rate_limit : Settled zero_rate_limit_result (parse_rate_limit_response resp)
  pub quota_acquire : Settled zero_quota_acquire_result (parse_quota_acquire_response resp)
  pub quota_info : Settled zero_quota_info (parse_quota_info_response resp)
  pub scan : Settled zero_scan_result (parse_scan_response resp)
  pub limit_event : Settled zero_limit_event (parse_limit_event_response resp)
  pub quota_event : Settled zero_quota_event (parse_quota_event_response resp)

-- Whatever bytes arrive, each of the nine parsers of response.go returns a success with its value,
-- a failure with the server's error and the zero value, `ErrCorruptedResponse` or
-- `ErrUnknownRespStatus`: no other error, and no status left unknown.
pub parsers-AllSettled : (resp : Bytes) → AllSettled resp
unfolding parse_hello_response parse_response parse_multi_response parse_rate_limit_response
    parse_quota_acquire_response parse_quota_info_response parse_scan_response
    parse_limit_event_response parse_quota_event_response
parsers-AllSettled resp = record {
  hello = parse_frame-Settled zero_hello_info _ (λ b. read_hello-Tame (fields b)) resp;
  value = parse_frame-Settled 0 _ (uint_field-Tame 64) resp;
  values = parse_frame-Settled [] _ read_values-Tame resp;
  rate_limit =
      parse_frame-Settled zero_rate_limit_result _ (λ b. read_rate_limit-Tame (fields b)) resp;
  quota_acquire =
      parse_frame-Settled zero_quota_acquire_result _ (λ b. read_quota_acquire-Tame (fields b))
        resp;
  quota_info = parse_frame-Settled zero_quota_info _ (λ b. read_quota_info-Tame (fields b)) resp;
  scan = parse_frame-Settled zero_scan_result _ (λ b. read_scan-Tame (fields b)) resp;
  limit_event = parse_frame-Settled zero_limit_event _ (λ b. read_limit_event-Tame (fields b)) resp;
  quota_event = parse_frame-Settled zero_quota_event _ (λ b. read_quota_event-Tame (fields b)) resp;
}
