-- ===== src/Response/Exact.antt =====
-- response.go: what a parser takes over from the server is what the server sent.
use fq_client_go.Common.{◌≡◌, ap, sym, subst, ◌∙◌, ◌∷◌, ◌++◌, [], Bytes}
use fq_client_go.Errors.{Error, Result, ok, err, ◌>>=◌}
use fq_client_go.Types.{
  zero_rate_limit_result, zero_limit_event, zero_quota_acquire_result, zero_quota_info,
  zero_scan_result, zero_quota_event,
}
use fq_client_go.Response.{
  frame_status_ok, frame_status_error, resp_delimiter, Response, parse_frame, parse_error,
}
use fq_client_go.Response.Frame.{
  success_of, failure_of, ok_frame, error_frame, other_frame, no_delimiter, frame_kind,
  parse_frame-ok, parse_frame-error, parse_frame-other, parse_frame-no_delimiter,
}
use fq_client_go.Response.Readers.{
  fields, zero_hello_info, parse_hello_response, parse_response, parse_multi_response,
  parse_rate_limit_response, parse_quota_acquire_response, parse_quota_info_response,
  parse_scan_response, parse_limit_event_response, parse_quota_event_response,
}
use fq_client_go.Response.Spelled.{
  IsNumber, NumbersSpelled, HelloSpelled, RateLimitSpelled, QuotaAcquireSpelled, QuotaInfoSpelled,
  ScanSpelled, LimitEventSpelled, QuotaEventSpelled,
}
use fq_client_go.Response.Gives.{
  Gives, gives, fails, uint_field-Gives, read_hello-Gives, read_rate_limit-Gives,
  read_quota_acquire-Gives, read_limit_event-Gives, read_quota_event-Gives, read_quota_info-Gives,
  read_scan-Gives, read_values-Gives,
}

-- What a parser returns: a success with a value that the body of an `ok` frame spells, the error in
-- an `er` frame with the zero value, or an error.
pub data Exact {A : Type 0} (Spelled : Bytes → A → Type 0) (empty : A) (resp : Bytes)
    : Result (Response A) → Type 0 where
  succeeded :
      (body : Bytes) (v : A)
      → resp ≡ frame_status_ok ++ resp_delimiter ∷ body
      → Spelled body v
      → Exact Spelled empty resp (ok (success_of v))
  refused :
      (body : Bytes)
      → resp ≡ frame_status_error ++ resp_delimiter ∷ body
      → Exact Spelled empty resp (ok (failure_of empty (parse_error body)))
  failed : (e : Error) → Exact Spelled empty resp (err e)

module _ {A : Type 0} (Spelled : Bytes → A → Type 0) (empty : A) (read : Bytes → Result A)
    (read_gives : (b : Bytes) → Gives (Spelled b) (read b)) where
  value_Exact :
      (resp body : Bytes) {r : Result A}
      → resp ≡ frame_status_ok ++ resp_delimiter ∷ body
      → Gives (Spelled body) r
      → Exact Spelled empty resp (r >>= λ v. ok (success_of v))
  value_Exact resp body e (gives v h) = succeeded body v e h
  value_Exact resp body e (fails x) = failed x

  parse_frame-Exact : (resp : Bytes) → Exact Spelled empty resp (parse_frame empty read resp)
  parse_frame-Exact resp = elim (frame_kind resp) [
    | ok_frame body e ↦
        subst (Exact Spelled empty resp)
          (sym (ap (parse_frame empty read) e ∙ parse_frame-ok empty read body))
          (value_Exact resp body e (read_gives body))
    | error_frame body e ↦
        subst (Exact Spelled empty resp)
          (sym (ap (parse_frame empty read) e ∙ parse_frame-error empty read body)) (refused body e)
    | other_frame status body l n m e ↦
        subst (Exact Spelled empty resp)
          (sym (ap (parse_frame empty read) e ∙ parse_frame-other empty read status body l n m))
          (failed _)
    | no_delimiter l ↦
        subst (Exact Spelled empty resp) (sym (parse_frame-no_delimiter empty read resp l))
          (failed _)
  ]

-- The parsers of one response each.
pub record AllExact (resp : Bytes) : Type 0 where
  pub hello : Exact (λ b. HelloSpelled (fields b)) zero_hello_info resp (parse_hello_response resp)
  pub value : Exact (IsNumber 64) 0 resp (parse_response resp)
  pub values : Exact (λ b. NumbersSpelled (fields b)) [] resp (parse_multi_response resp)
  pub rate_limit :
      Exact
        (λ b. RateLimitSpelled (fields b))
        zero_rate_limit_result
        resp
        (parse_rate_limit_response resp)
  pub quota_acquire :
      Exact
        (λ b. QuotaAcquireSpelled (fields b))
        zero_quota_acquire_result
        resp
        (parse_quota_acquire_response resp)
  pub quota_info :
      Exact (λ b. QuotaInfoSpelled (fields b)) zero_quota_info resp (parse_quota_info_response resp)
  pub scan : Exact (λ b. ScanSpelled (fields b)) zero_scan_result resp (parse_scan_response resp)
  pub limit_event :
      Exact
        (λ b. LimitEventSpelled (fields b))
        zero_limit_event
        resp
        (parse_limit_event_response resp)
  pub quota_event :
      Exact
        (λ b. QuotaEventSpelled (fields b))
        zero_quota_event
        resp
        (parse_quota_event_response resp)

-- Whatever bytes arrive, when a parser of response.go returns a success, the bytes are an `ok` frame
-- whose fields spell the value: as many as its type has, each text as it is, each flag 0 or 1, and
-- each number the whole decimal number of its field, within the 32 or 64 bits of its type, 31 bits
-- and not 0 for the message size of a handshake. When it returns the server's error, the bytes are an
-- error frame with that error, and the value is zero.
pub parsers-AllExact : (resp : Bytes) → AllExact resp
unfolding parse_hello_response parse_response parse_multi_response parse_rate_limit_response
    parse_quota_acquire_response parse_quota_info_response parse_scan_response
    parse_limit_event_response parse_quota_event_response
parsers-AllExact resp = record {
  hello = parse_frame-Exact _ _ _ (λ b. read_hello-Gives (fields b)) resp;
  value = parse_frame-Exact _ _ _ (λ b. uint_field-Gives 64 b) resp;
  values = parse_frame-Exact _ _ _ read_values-Gives resp;
  rate_limit = parse_frame-Exact _ _ _ (λ b. read_rate_limit-Gives (fields b)) resp;
  quota_acquire = parse_frame-Exact _ _ _ (λ b. read_quota_acquire-Gives (fields b)) resp;
  quota_info = parse_frame-Exact _ _ _ (λ b. read_quota_info-Gives (fields b)) resp;
  scan = parse_frame-Exact _ _ _ (λ b. read_scan-Gives (fields b)) resp;
  limit_event = parse_frame-Exact _ _ _ (λ b. read_limit_event-Gives (fields b)) resp;
  quota_event = parse_frame-Exact _ _ _ (λ b. read_quota_event-Gives (fields b)) resp;
}
