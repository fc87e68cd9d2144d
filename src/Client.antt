-- ===== src/Client.antt =====
-- client.go and inspect.go: the client over a pool, one method for each command. `none` stands for
-- a call that blocks for ever, on the full channel of the pool.
pub mod New
pub mod Streams
pub mod Laws
pub mod Methods
pub mod Inspection
pub mod Opening
pub mod Ends
pub mod Delivery
pub mod Resumption
use fq_client_go.Common.{
  ℕ, zero, suc, Bool, true, false, Option, none, some, List, [], ◌∷◌, ◌++◌, Bytes, codes, length,
  map, ◌==◌, if◌then◌else◌,
}
use fq_client_go.Errors.{
  Error, sentinel, wrap, both, unknown_resp_status, corrupted_response, Result, ok, err,
}
use fq_client_go.Exec.{Exec}
use fq_client_go.Net.{Env, Ctx}
use fq_client_go.Types.{
  CappingKey, LimitKey, RateLimitResult, zero_rate_limit_result, QuotaAcquireResult,
  zero_quota_acquire_result, QuotaInfo, zero_quota_info, ScanResult, zero_scan_result,
}
use fq_client_go.Options.{ClientOption}
use fq_client_go.Response.{Response, ResponseStatus, unknown, success, error, parse_frame}
use fq_client_go.Response.Readers.{
  parse_response, parse_multi_response, parse_rate_limit_response, parse_quota_acquire_response,
  parse_quota_info_response, parse_scan_response,
}
use fq_client_go.Command.{
  command_incr, command_get, command_watch, command_del, command_mdel, command_flushdb,
  command_truncate, rlimit_algorithm_fw, rlimit_algorithm_sw, write_command, write_multi_command,
  write_rlimit_window_command, write_rlimit_token_bucket_command, write_quota_acquire_command,
  write_quota_acquire_lease_command, write_quota_acquire_n_command, write_quota_set_command,
  write_quota_set_n_command, write_quota_release_command, write_quota_delete_command,
  write_quota_info_command, write_scan_command, write_pscan_command, write_inspect_command,
}
use fq_client_go.Tcp.{TcpClient, Session}
use fq_client_go.Tcp.Retry.{send_with_reconnect, send_chunked_with_reconnect}
use fq_client_go.Pool.{Target, World, Pool, get_connection, release_connection, new_connection_pool}

-- A call of a method: a result and the world behind it, or blocked.
abbrev pub Call : Type 0 → Type 0
Call A = World → Option (Result A × World)

unfoldable pub released : {A : Type 0} → Result A → Option World → Option (Result A × World)
released r none = none
released r (some w) = some (r, w)

-- The deferred `ReleaseConnection`, behind a body that left `s`.
unfoldable pub returned : {A : Type 0} → Pool → Result A × Session → Option (Result A × World)
unfolding released
returned p (r, s) = released r (release_connection s.client (record { pool = p; env = s.env }))

unfoldable pub with_got :
    {A : Type 0} → Exec Session A → Result TcpClient × World → Option (Result A × World)
unfolding returned
with_got body (err e, w) = some (err (wrap (codes "get connection") e), w)
with_got body (ok c, w) = returned w.pool (body (record { client = c; env = w.env }))

-- A connection out of the pool, used and given back.
unfoldable pub with_connection : {A : Type 0} → Target → Exec Session A → Call A
unfolding with_got
with_connection target body w = with_got body (get_connection target w)

-- `return zero, result.err`, where the error may be nil.
unfoldable pub fail_with : {A : Type 0} → A → Option Error → Result A
fail_with zero_value (some e) = err e
fail_with zero_value none = ok zero_value

-- The switch on `result.status`. `zero_value` is what stands beside an error.
unfoldable pub status_result : {A B : Type 0} → (A → B) → B → Response A → Result B
unfolding fail_with
status_result finish zero_value r = elim r.status [
  | success ↦ ok (finish r.value)
  | error ↦ fail_with zero_value r.err
  | unknown ↦ err (sentinel unknown_resp_status)
]

unfoldable pub parsed_result : {A B : Type 0} → (A → B) → B → Result (Response A) → Result B
unfolding status_result
parsed_result finish zero_value (ok r) = status_result finish zero_value r
parsed_result finish zero_value (err e) = err (wrap (codes "parse response") e)

unfoldable pub sent_result :
    {A B : Type 0}
    → (Bytes → Result (Response A))
    → (A → B)
    → B
    → Result Bytes × Session
    → Result B × Session
unfolding parsed_result
sent_result parse finish zero_value (err e, s) = (err (wrap (codes "send") e), s)
sent_result parse finish zero_value (ok resp, s) = (parsed_result finish zero_value (parse resp), s)

-- What every method does with its connection: send, parse, look at the status.
unfoldable pub exchange :
    {A B : Type 0}
    → Exec Session Bytes
    → (Bytes → Result (Response A))
    → (A → B)
    → B
    → Exec Session B
unfolding sent_result
exchange send_request parse finish zero_value s =
    sent_result parse finish zero_value (send_request s)

unfoldable pub values_to_bools : List ℕ → List Bool
values_to_bools [] = []
values_to_bools (v ∷ vs) = (v == 1) ∷ values_to_bools vs

module _ {R : Type 0} (unmarshal : Bytes → Result R) where
  unfoldable pub read_report : Bytes → Result R
  read_report text = elim (unmarshal text) [
    | ok report ↦ ok report
    | err e ↦ err (both (sentinel corrupted_response) e)
  ]

  -- `zero_report` is the zero value of `InspectReport`.
  unfoldable pub parse_inspect_response : R → Bytes → Result (Response R)
  unfolding read_report
  parse_inspect_response zero_report resp = parse_frame zero_report read_report resp

-- A `Client` has its pool, whose connections are made for one target.
module _ (target : Target) (ctx : Ctx) where
  unfoldable pub uint_command : Bytes → Call ℕ
  unfolding with_connection exchange
  uint_command request =
      with_connection target (exchange (send_with_reconnect ctx request) parse_response (λ v. v) 0)

  unfoldable pub incr : CappingKey → Call ℕ
  unfolding uint_command
  incr key = uint_command (write_command [] command_incr key)

  unfoldable pub get : CappingKey → Call ℕ
  unfolding uint_command
  get key = uint_command (write_command [] command_get key)

  unfoldable pub watch : CappingKey → Call ℕ
  unfolding uint_command
  watch key = uint_command (write_command [] command_watch key)

  unfoldable pub bool_command : Bytes → Call Bool
  unfolding with_connection exchange
  bool_command request =
      with_connection target
        (exchange (send_with_reconnect ctx request) parse_response (λ v. v == 1) false)

  unfoldable pub del : CappingKey → Call Bool
  unfolding bool_command
  del key = bool_command (write_command [] command_del key)

  unfoldable pub mdel : List CappingKey → Call (List Bool)
  unfolding with_connection exchange values_to_bools
  mdel keys = with_connection target (
      exchange (send_with_reconnect ctx (write_multi_command [] command_mdel keys))
        parse_multi_response values_to_bools [])

  unfoldable pub rlimit : Bytes → Call RateLimitResult
  unfolding with_connection exchange
  rlimit request = with_connection target (
      exchange (send_with_reconnect ctx request) parse_rate_limit_response (λ v. v)
        zero_rate_limit_result)

  unfoldable pub rlimit_fixed_window : LimitKey → ℕ → Call RateLimitResult
  unfolding rlimit
  rlimit_fixed_window key limit =
      rlimit (write_rlimit_window_command [] rlimit_algorithm_fw key limit)

  unfoldable pub rlimit_sliding_window : LimitKey → ℕ → Call RateLimitResult
  unfolding rlimit
  rlimit_sliding_window key limit =
      rlimit (write_rlimit_window_command [] rlimit_algorithm_sw key limit)

  unfoldable pub rlimit_token_bucket : LimitKey → ℕ → ℕ → Call RateLimitResult
  unfolding rlimit
  rlimit_token_bucket key capacity refill_amount =
      rlimit (write_rlimit_token_bucket_command [] key capacity refill_amount)

  unfoldable pub acquire : Bytes → Call QuotaAcquireResult
  unfolding with_connection exchange
  acquire request = with_connection target (
      exchange (send_with_reconnect ctx request) parse_quota_acquire_response (λ v. v)
        zero_quota_acquire_result)

  unfoldable pub quota_acquire : Bytes → ℕ → Bytes → List ℕ → Call QuotaAcquireResult
  unfolding acquire
  quota_acquire name amount client_id ttl =
      acquire (write_quota_acquire_command [] name amount client_id ttl)

  unfoldable pub quota_acquire_lease : Bytes → ℕ → ℕ → Bytes → List ℕ → Call QuotaAcquireResult
  unfolding acquire
  quota_acquire_lease name limit amount client_id ttl =
      acquire (write_quota_acquire_lease_command [] name limit amount client_id ttl)

  unfoldable pub quota_acquire_n : Bytes → Bytes → List ℕ → Call QuotaAcquireResult
  unfolding acquire
  quota_acquire_n name client_id ttl = acquire (write_quota_acquire_n_command [] name client_id ttl)

  unfoldable pub quota_set : Bytes → ℕ → Call Bool
  unfolding bool_command
  quota_set name limit = bool_command (write_quota_set_command [] name limit)

  unfoldable pub quota_set_n : Bytes → ℕ → ℕ → Call Bool
  unfolding bool_command
  quota_set_n name limit clients = bool_command (write_quota_set_n_command [] name limit clients)

  unfoldable pub quota_release : Bytes → Bytes → Call Bool
  unfolding bool_command
  quota_release name client_id = bool_command (write_quota_release_command [] name client_id)

  unfoldable pub quota_delete : Bytes → Call Bool
  unfolding bool_command
  quota_delete name = bool_command (write_quota_delete_command [] name)

  unfoldable pub quota_info : Bytes → Call QuotaInfo
  unfolding with_connection exchange
  quota_info name = with_connection target (
      exchange (send_with_reconnect ctx (write_quota_info_command [] name))
        parse_quota_info_response (λ v. v) zero_quota_info)

  unfoldable pub scan_with : Bytes → Call ScanResult
  unfolding with_connection exchange
  scan_with request =
      with_connection target
        (exchange (send_with_reconnect ctx request) parse_scan_response (λ v. v) zero_scan_result)

  unfoldable pub scan : Bytes → ℕ → Call ScanResult
  unfolding scan_with
  scan cursor count = scan_with (write_scan_command [] cursor count)

  unfoldable pub pscan : Bytes → Bytes → ℕ → Call ScanResult
  unfolding scan_with
  pscan prefix cursor count = scan_with (write_pscan_command [] prefix cursor count)

  unfoldable pub flush_db : Call Bool
  unfolding bool_command
  flush_db = bool_command command_flushdb

  unfoldable pub truncate : Call Bool
  unfolding bool_command
  truncate = bool_command command_truncate

  -- `Inspect`, over `json.Unmarshal` into a report of the type `R`.
  module _ {R : Type 0} (unmarshal : Bytes → Result R) where
    unfoldable pub inspect : R → Bytes → Call R
    unfolding with_connection exchange parse_inspect_response
    inspect zero_report section = with_connection target (
        exchange (send_chunked_with_reconnect ctx (write_inspect_command [] section))
          (parse_inspect_response unmarshal zero_report) (λ v. v) zero_report)
