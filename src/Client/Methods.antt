-- ===== src/Client/Methods.antt =====
-- client.go: every method that is answered by one frame, in one type, with the request that it sends,
-- the answers that the server may give, and what the method makes of an answer.
pub mod Served
use fq_client_go.Common.{
  ℕ, ◌≤◌, ◌≡◌, refl, ap, sym, ◌∙◌, subst, Bool, false, Option, some, List, [], map, Bytes, ◌==◌,
}
use fq_client_go.Errors.{Error, protocol, Result, ok, err}
use fq_client_go.Net.{Ctx}
use fq_client_go.Types.{
  CappingKey, LimitKey, RateLimitResult, QuotaAcquireResult, QuotaInfo, ScanResult,
  zero_rate_limit_result, zero_quota_acquire_result, zero_quota_info, zero_scan_result,
}
use fq_client_go.Response.{Response, parse_frame}
use fq_client_go.Response.Frame.{success_of, failure_of, parse_frame-error}
use fq_client_go.Response.Protocol.{parse_error-wire}
use fq_client_go.Response.Readers.{
  parse_response, parse_multi_response, parse_rate_limit_response, parse_quota_acquire_response,
  parse_quota_info_response, parse_scan_response,
}
use fq_client_go.Response.Wire.{ok_wire, error_wire}
use fq_client_go.Response.Replies.{
  Reply, number, numbers, rate_limit, quota_acquire, quota_info, scan_page, reply_fields, ReplyFits,
  replies-ReadsAs,
}
use fq_client_go.Command.Request.{Request, encode}
use fq_client_go.Tcp.{TcpClient}
use fq_client_go.Tcp.Retry.{send_with_reconnect}
use fq_client_go.Pool.{Target, World}
use fq_client_go.Client.Laws.{Serves, Answered, exchange-Answered}
use fq_client_go.Client.{
  Call, with_connection, exchange, parsed_result, status_result, fail_with, values_to_bools,
  uint_command, bool_command, acquire, scan_with,
}
use fq_client_go.Client

-- The kinds of results.
pub data Kind : Type 0 where
  a_number a_flag some_flags a_rate_limit an_acquisition a_quota a_page : Kind

-- What the server sends, and what the caller gets.
abbrev pub Sent : Kind → Type 0
Sent a_number = ℕ
Sent a_flag = ℕ
Sent some_flags = List ℕ
Sent a_rate_limit = RateLimitResult
Sent an_acquisition = QuotaAcquireResult
Sent a_quota = QuotaInfo
Sent a_page = ScanResult

abbrev pub Value : Kind → Type 0
Value a_number = ℕ
Value a_flag = Bool
Value some_flags = List Bool
Value a_rate_limit = RateLimitResult
Value an_acquisition = QuotaAcquireResult
Value a_quota = QuotaInfo
Value a_page = ScanResult

-- A flag is the number 1.
abbrev pub value_of : (k : Kind) → Sent k → Value k
value_of a_number n = n
value_of a_flag n = n == 1
value_of some_flags ns = map (λ n. n == 1) ns
value_of a_rate_limit r = r
value_of an_acquisition r = r
value_of a_quota q = q
value_of a_page r = r

abbrev pub reply_of : (k : Kind) → Sent k → Reply
reply_of a_number n = number n
reply_of a_flag n = number n
reply_of some_flags ns = numbers ns
reply_of a_rate_limit r = rate_limit r
reply_of an_acquisition r = quota_acquire r
reply_of a_quota q = quota_info q
reply_of a_page r = scan_page r

pub data Method : Kind → Type 0 where
  incr get watch : CappingKey → Method a_number
  del : CappingKey → Method a_flag
  mdel : List CappingKey → Method some_flags
  rlimit_fixed_window rlimit_sliding_window : LimitKey → ℕ → Method a_rate_limit
  rlimit_token_bucket : LimitKey → ℕ → ℕ → Method a_rate_limit
  acquire_quota : Bytes → ℕ → Bytes → List ℕ → Method an_acquisition
  acquire_lease : Bytes → ℕ → ℕ → Bytes → List ℕ → Method an_acquisition
  acquire_n : Bytes → Bytes → List ℕ → Method an_acquisition
  quota_set : Bytes → ℕ → Method a_flag
  quota_set_n : Bytes → ℕ → ℕ → Method a_flag
  quota_release : Bytes → Bytes → Method a_flag
  quota_delete : Bytes → Method a_flag
  info : Bytes → Method a_quota
  scan : Bytes → ℕ → Method a_page
  pscan : Bytes → Bytes → ℕ → Method a_page
  flush_db truncate : Method a_flag

abbrev pub request_of : {k : Kind} → Method k → Request
request_of (incr key) = Request.incr key
request_of (get key) = Request.get key
request_of (watch key) = Request.watch key
request_of (del key) = Request.del key
request_of (mdel keys) = Request.mdel keys
request_of (rlimit_fixed_window key limit) = Request.rlimit_fixed_window key limit
request_of (rlimit_sliding_window key limit) = Request.rlimit_sliding_window key limit
request_of (rlimit_token_bucket key capacity refill) =
    Request.rlimit_token_bucket key capacity refill
request_of (acquire_quota name amount client ttl) = Request.quota_acquire name amount client ttl
request_of (acquire_lease name limit amount client ttl) =
    Request.quota_acquire_lease name limit amount client ttl
request_of (acquire_n name client ttl) = Request.quota_acquire_n name client ttl
request_of (quota_set name limit) = Request.quota_set name limit
request_of (quota_set_n name limit clients) = Request.quota_set_n name limit clients
request_of (quota_release name client) = Request.quota_release name client
request_of (quota_delete name) = Request.quota_delete name
request_of (info name) = Request.quota_info name
request_of (scan cursor count) = Request.scan cursor count
request_of (pscan prefix cursor count) = Request.pscan prefix cursor count
request_of flush_db = Request.flush_db
request_of truncate = Request.truncate

-- The method of the client.
abbrev pub call : {k : Kind} → Method k → Target → Ctx → Call (Value k)
call (incr key) target ctx = Client.incr target ctx key
call (get key) target ctx = Client.get target ctx key
call (watch key) target ctx = Client.watch target ctx key
call (del key) target ctx = Client.del target ctx key
call (mdel keys) target ctx = Client.mdel target ctx keys
call (rlimit_fixed_window key limit) target ctx = Client.rlimit_fixed_window target ctx key limit
call (rlimit_sliding_window key limit) target ctx =
    Client.rlimit_sliding_window target ctx key limit
call (rlimit_token_bucket key capacity refill) target ctx =
    Client.rlimit_token_bucket target ctx key capacity refill
call (acquire_quota name amount client ttl) target ctx =
    Client.quota_acquire target ctx name amount client ttl
call (acquire_lease name limit amount client ttl) target ctx =
    Client.quota_acquire_lease target ctx name limit amount client ttl
call (acquire_n name client ttl) target ctx = Client.quota_acquire_n target ctx name client ttl
call (quota_set name limit) target ctx = Client.quota_set target ctx name limit
call (quota_set_n name limit clients) target ctx = Client.quota_set_n target ctx name limit clients
call (quota_release name client) target ctx = Client.quota_release target ctx name client
call (quota_delete name) target ctx = Client.quota_delete target ctx name
call (info name) target ctx = Client.quota_info target ctx name
call (scan cursor count) target ctx = Client.scan target ctx cursor count
call (pscan prefix cursor count) target ctx = Client.pscan target ctx prefix cursor count
call flush_db target ctx = Client.flush_db target ctx
call truncate target ctx = Client.truncate target ctx
